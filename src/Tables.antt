-- ===== src/Tables.antt =====
-- `vmalloc_to_sgtable` of DSA_Kernelspace_Test/3.kernel_test_N_DSAs/kernel_test_sgtable_batch.c: the
-- pages of both areas are dealt out to one pair of scatterlists for each work queue.
--
-- `to_page` is `vmalloc_to_page` (`none` is NULL), and `alloc_fails k` tells whether call `k` of
-- `sg_alloc_table` returns an error. The `kmalloc` calls, which the code does not check, succeed.
pub mod Partition
pub mod Cleanup
mod Examples
use dsa_test.Base.{
  ℕ, zero, suc, ◌+◌, ◌*◌, ◌/◌, ◌%◌, Bool, true, false, ◌||◌, Option, none, some, List, [], ◌∷◌, leb,
  ◌==◌, if◌then◌else◌, length, get_or,
}

abbrev pub page_size : ℕ
page_size = 4096

-- `struct sg_table`: the entries that it was made with, and the pages set in the first of them.
-- `sg_mark_end` puts the end of the chain behind the last page that was set.
pub record SgTable : Type 0 where
  pub orig_nents : ℕ
  pub pages : List ℕ

-- One of the two inner loops, at most `n` rounds from entry `k` of `arr`. `none` is `goto free_sgt`.
pub set_pages : (ℕ → Option ℕ) → ℕ → List ℕ → ℕ → ℕ → ℕ → Option (List ℕ)
set_pages to_page area arr npages zero k = some []
set_pages to_page area arr npages (suc n) k =
    let rest = set_pages to_page area arr npages n (k + 1) in
    if leb npages k then some [] else elim (to_page (area + get_or arr k 0 * page_size)) [
      | none ↦ none
      | some page ↦ elim rest [ none ↦ none | some pages ↦ some (page ∷ pages) ]
    ]

abbrev pub TablePair : Type 0
TablePair = SgTable × SgTable

-- The loop that fills the tables, with `w` queues left and `idx` pages dealt out.
pub deal : (ℕ → Option ℕ) → ℕ → ℕ → List ℕ → ℕ → ℕ → ℕ → ℕ → Option (List TablePair)
unfolding set_pages
deal to_page area area2 arr npages nents zero idx = some []
deal to_page area area2 arr npages nents (suc w) idx =
    elim (set_pages to_page area arr npages nents idx) [
      | none ↦ none
      | some src ↦ elim (set_pages to_page area2 arr npages nents idx) [
        | none ↦ none
        | some dst ↦ elim (deal to_page area area2 arr npages nents w (idx + length dst)) [
          | none ↦ none
          | some rest ↦ some (
              (
                record { orig_nents = nents; pages = src },
                record { orig_nents = nents; pages = dst },
              )
              ∷ rest)
        ]
      ]
    ]

-- `nents` of the loop that allocates
unfoldable pub table_nents : ℕ → ℕ → ℕ
table_nents npages enabled_wqs =
    if npages % enabled_wqs == 0 then npages / enabled_wqs else npages / enabled_wqs + 1

-- Whether that loop meets an error, with `w` queues left and `k` calls made.
pub alloc_tables : (ℕ → Bool) → ℕ → ℕ → Bool
alloc_tables alloc_fails zero k = false
alloc_tables alloc_fails (suc w) k =
    alloc_fails k || alloc_fails (k + 1) || alloc_tables alloc_fails w (k + 2)

-- `vmalloc_to_sgtable`: `none` when it frees the tables and returns.
pub vmalloc_to_sgtable :
    (ℕ → Bool) → (ℕ → Option ℕ) → ℕ → ℕ → List ℕ → ℕ → ℕ → Option (List TablePair)
unfolding alloc_tables table_nents deal
vmalloc_to_sgtable alloc_fails to_page area area2 arr npages enabled_wqs =
    if alloc_tables alloc_fails enabled_wqs 0
    then none
    else deal to_page area area2 arr npages (table_nents npages enabled_wqs) enabled_wqs 0
