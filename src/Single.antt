-- ===== src/Single.antt =====
-- The tables of DSA_Kernelspace_Test/1.kernel_test/kernel_test_sgtable.c: `vmalloc_to_sgtable`, and
-- `test`, which maps two tables and unmaps them again.
--
-- Whether `sg_alloc_table` fails at its two calls, the page of an address and whether
-- `dma_map_sgtable` fails are arguments. A table is the list of the pages of its entries; after
-- `sg_free_table` it has none.
pub mod Freed
use dsa_test.Base.{
  ℕ, zero, suc, ◌+◌, ◌*◌, Bool, true, false, ◌||◌, Option, none, some, List, [], ◌∷◌, if◌then◌else◌,
  Outcome,
}
use dsa_test.Desc.{Wq, Seg}
use dsa_test.Copy.Loop.{Kernel, End, dsa_copy}

abbrev pub page_size : ℕ
page_size = 4096

-- `for_each_sgtable_sg`, with `n` entries left from entry `i`: `none` is `goto free_sgt`.
pub set_entries : (ℕ → Option ℕ) → ℕ → ℕ → ℕ → Option (List ℕ)
set_entries to_page area zero i = some []
set_entries to_page area (suc n) i = elim (to_page (area + i * page_size)) [
  | none ↦ none
  | some page ↦ elim (set_entries to_page area n (i + 1)) [
    | none ↦ none
    | some pages ↦ some (page ∷ pages)
  ]
]

-- Both tables of two areas: `none` is `goto free_sgt`.
pub set_both : (ℕ → Option ℕ) → ℕ → ℕ → ℕ → Option (List ℕ × List ℕ)
unfolding set_entries
set_both to_page area area2 npages = elim (set_entries to_page area npages 0) [
  | none ↦ none
  | some pages ↦ elim (set_entries to_page area2 npages 0) [
    | none ↦ none
    | some pages2 ↦ some (pages, pages2)
  ]
]

-- `vmalloc_to_sgtable`: `sgt1` and `sgt2`. It returns nothing, so that its caller goes on with tables
-- that have been freed.
pub vmalloc_to_sgtable : Bool → Bool → (ℕ → Option ℕ) → ℕ → ℕ → ℕ → List ℕ × List ℕ
unfolding set_both
vmalloc_to_sgtable bad1 bad2 to_page area area2 npages =
    if bad1 || bad2
    then ([], [])
    else elim (set_both to_page area area2 npages) [ none ↦ ([], []) | some tables ↦ tables ]

-- The end of `my_init`: the tables, their mapping and the copy. `dma_map_sgtable` succeeds, and gives
-- the mapped entries of a table.
pub make_and_copy : (List ℕ → List Seg) → Kernel → Wq → List ℕ × List ℕ → Outcome End
make_and_copy dma_map_sgtable os wq (sgt1, sgt2) =
    dsa_copy os wq (dma_map_sgtable sgt1) (dma_map_sgtable sgt2)

-- What `test` leaves: whether `sgt3` and `sgt4` are mapped, and whether their tables are freed.
pub record Left : Type 0 where
  pub mapped3 : Bool
  pub mapped4 : Bool
  pub freed : Bool

-- `test`
pub test : Bool → Bool → (ℕ → Option ℕ) → ℕ → ℕ → ℕ → Bool → Bool → Left
unfolding set_both
test bad1 bad2 to_page area5 area6 npages map_fails3 map_fails4 =
    let free_sgt : Left = record { mapped3 = false; mapped4 = false; freed = true } in
    if bad1 || bad2 then free_sgt else elim (set_both to_page area5 area6 npages) [
      | none ↦ free_sgt
      | some tables ↦
          if map_fails3
          then free_sgt
          else if map_fails4
          then record free_sgt { mapped3 = true }
          else record { mapped3 = false; mapped4 = false; freed = false }
    ]
