-- ===== src/Shuffled.antt =====
-- The tables of DSA_Kernelspace_Test/2.kernel_test_pages_shuffling/kernel_test_sgtable.c, whose pages
-- stand in the order of `random_arr` (`Shuffle`, which is the same there). The other functions of the
-- file are those of DSA_Kernelspace_Test/1.kernel_test/kernel_test_sgtable.c.
--
-- Whether `sg_alloc_table` fails at its two calls and the page of an address are arguments; a table
-- that was freed has no entries.
pub mod Copied
pub mod Batches
mod Examples
use dsa_test.Base.{
  ℕ, zero, suc, ◌+◌, ◌*◌, Bool, ◌||◌, Option, none, some, List, [], ◌∷◌, if◌then◌else◌, get_or,
}
use dsa_test.Single.{page_size}

-- `for_each_sgtable_sg`, with `n` entries left from entry `i`: `none` is `goto free_sgt`.
pub set_in_order : (ℕ → Option ℕ) → ℕ → List ℕ → ℕ → ℕ → Option (List ℕ)
set_in_order to_page area arr zero i = some []
set_in_order to_page area arr (suc n) i = elim (to_page (area + get_or arr i 0 * page_size)) [
  | none ↦ none
  | some page ↦ elim (set_in_order to_page area arr n (i + 1)) [
    | none ↦ none
    | some pages ↦ some (page ∷ pages)
  ]
]

-- `vmalloc_to_sgtable`: `sgt1` and `sgt2`
pub vmalloc_to_sgtable : Bool → Bool → (ℕ → Option ℕ) → ℕ → ℕ → List ℕ → ℕ → List ℕ × List ℕ
unfolding set_in_order
vmalloc_to_sgtable bad1 bad2 to_page area area2 arr npages =
    if bad1 || bad2 then ([], []) else elim (set_in_order to_page area arr npages 0) [
      | none ↦ ([], [])
      | some pages ↦ elim (set_in_order to_page area2 arr npages 0) [
        | none ↦ ([], [])
        | some pages2 ↦ (pages, pages2)
      ]
    ]
