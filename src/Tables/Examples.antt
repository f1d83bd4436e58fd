-- ===== src/Tables/Examples.antt =====
-- Three pages for two queues.
use dsa_test.Base.{
  ◌==◌, ◌<◌, ◌⊎◌, true, Bool, returns, fault, ℕ, ◌+◌, ◌*◌, ◌≡◌, refl, false, List, [], ◌∷◌, some,
  map, concat, slices, arith,
}
use dsa_test.Tables.{table_nents, vmalloc_to_sgtable, page_size}
use dsa_test.Tables.Cleanup.{uninitialised, without_entries, new_tables, left_tables, slot_after}
use dsa_test.Tables.Cleanup.Cases.{left_tables-cases}
use dsa_test.Tables.Partition.{pair_of, vmalloc_to_sgtable-slices}

abbrev order : List ℕ
order = 2 ∷ 0 ∷ 1 ∷ []

vmalloc_to_sgtable-slices_example :
    (vmalloc_to_sgtable (λ k. false) (λ a. some a) 0 4096 order 3 2
      ≡ some (
          map
            (pair_of (λ p. 0 + p * page_size) (λ p. 4096 + p * page_size) (table_nents 3 2))
            (slices 2 (table_nents 3 2) order)))
    × (concat (slices 2 (table_nents 3 2) order) ≡ order)
vmalloc_to_sgtable-slices_example =
    vmalloc_to_sgtable-slices (λ a. some a) order 3 refl (λ k. false) 0 4096
      (λ p. 0 + p * page_size) (λ p. 4096 + p * page_size) 2 (λ k. refl) (λ k h. refl) (λ k h. refl)
      (omega arith)

abbrev second_fails : ℕ → Bool
second_fails k = k == 1

left_tables-cases_example :
    (left_tables without_entries second_fails (λ a. some a) 0 4096 order 3 2
      ≡ returns (
          new_tables
            (slot_after (vmalloc_to_sgtable second_fails (λ a. some a) 0 4096 order 3 2))
            2))
    × (((j : ℕ) × (j + 1 < 2 * 2)
          × (second_fails j ≡ true)
          × (left_tables uninitialised second_fails (λ a. some a) 0 4096 order 3 2 ≡ fault))
        ⊎ (((j : ℕ) → j + 1 < 2 * 2 → second_fails j ≡ false)
            × (left_tables uninitialised second_fails (λ a. some a) 0 4096 order 3 2
                ≡ returns (
                    new_tables
                      (slot_after (vmalloc_to_sgtable second_fails (λ a. some a) 0 4096 order 3 2))
                      2))))
left_tables-cases_example = left_tables-cases second_fails (λ a. some a) 0 4096 order 3 2
