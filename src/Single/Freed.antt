-- ===== src/Single/Freed.antt =====
-- What `vmalloc_to_sgtable` and `test` of
-- DSA_Kernelspace_Test/1.kernel_test/kernel_test_sgtable.c leave when a call fails.
use dsa_test.Base.{
  ℕ, zero, suc, ◌+◌, ◌*◌, ◌≡◌, ◌≢◌, refl, Bool, true, false, ◌||◌, Option, none, some, List, [],
  ◌∷◌, fault, ◌↔◌, arith,
}
use dsa_test.Desc.{Wq, Seg}
use dsa_test.Copy.Loop.{Kernel, dsa_copy-nil}
use dsa_test.Single.{page_size, set_entries, set_both, vmalloc_to_sgtable, make_and_copy, test}

-- The pages of `n` entries from entry `i` on.
abbrev pub pages_of : (ℕ → ℕ) → ℕ → ℕ → ℕ → List ℕ
pages_of page area zero i = []
pages_of page area (suc n) i = page (area + i * page_size) ∷ pages_of page area n (i + 1)

set_entries-all :
    (to_page : ℕ → Option ℕ) (page : ℕ → ℕ) (area n i : ℕ)
    → ((a : ℕ) → to_page a ≡ some (page a))
    → set_entries to_page area n i ≡ some (pages_of page area n i)
unfolding set_entries
set_entries-all to_page page area zero i found = refl
set_entries-all to_page page area (suc n) i found =
    rw (found (area + i * page_size), set_entries)
      (rw (set_entries-all to_page page area n (i + 1) found) refl)

-- When no call fails, `vmalloc_to_sgtable` gives the two tables the pages of their areas, in order.
pub single_tables-pages :
    (to_page : ℕ → Option ℕ) (page : ℕ → ℕ) (area area2 npages : ℕ)
    → ((a : ℕ) → to_page a ≡ some (page a))
    → vmalloc_to_sgtable false false to_page area area2 npages
      ≡ (pages_of page area npages 0, pages_of page area2 npages 0)
unfolding vmalloc_to_sgtable set_both
single_tables-pages to_page page area area2 npages found =
    rw
      (
        set_entries-all to_page page area npages 0 found,
        set_entries-all to_page page area2 npages 0 found,
      )
      refl

-- When one of the allocations of `vmalloc_to_sgtable` fails, and a table without entries has no mapped
-- ones, the copy that follows reads through NULL.
pub copy_after_failure :
    (bad1 bad2 : Bool) (to_page : ℕ → Option ℕ) (area area2 npages : ℕ)
    (dma_map_sgtable : List ℕ → List Seg) (os : Kernel) (wq : Wq)
    → (bad1 || bad2) ≡ true
    → dma_map_sgtable [] ≡ []
    → make_and_copy dma_map_sgtable os wq (vmalloc_to_sgtable bad1 bad2 to_page area area2 npages)
      ≡ fault
unfolding vmalloc_to_sgtable make_and_copy
copy_after_failure bad1 bad2 to_page area area2 npages dma_map_sgtable os wq failed empty =
    rw failed (rw empty (dsa_copy-nil os wq))

-- When no call fails, `test` keeps its tables, unmapped.
pub test-kept :
    (to_page : ℕ → Option ℕ) (page : ℕ → ℕ) (area5 area6 npages : ℕ)
    → ((a : ℕ) → to_page a ≡ some (page a))
    → test false false to_page area5 area6 npages false false
      ≡ record { mapped3 = false; mapped4 = false; freed = false }
unfolding test set_both
test-kept to_page page area5 area6 npages found =
    rw
      (
        set_entries-all to_page page area5 npages 0 found,
        set_entries-all to_page page area6 npages 0 found,
      )
      refl

-- `test` leaves `sgt4` unmapped, and it leaves `sgt3` mapped exactly when it comes to the mapping of
-- `sgt4` and that fails; the table of `sgt3` is then freed while it is mapped.
pub test_leaves_mapping :
    (bad1 bad2 : Bool) (to_page : ℕ → Option ℕ) (area5 area6 npages : ℕ) (map3 map4 : Bool)
    → (let left = test bad1 bad2 to_page area5 area6 npages map3 map4 in
        (left.mapped4 ≡ false)
        × ((left.mapped3 ≡ true) ↔ (
            ((bad1 || bad2) ≡ false)
            × (set_both to_page area5 area6 npages ≢ none)
            × (map3 ≡ false)
            × (map4 ≡ true)))
        × ((left.mapped3 ≡ true) → left.freed ≡ true))
unfolding test
test_leaves_mapping bad1 bad2 to_page area5 area6 npages map3 map4 =
    (ground arith, (ground arith, ground arith), ground arith)
