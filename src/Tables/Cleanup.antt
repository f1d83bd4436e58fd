-- ===== src/Tables/Cleanup.antt =====
-- The allocation and the clean-up of the tables in `vmalloc_to_sgtable` of
-- DSA_Kernelspace_Test/3.kernel_test_N_DSAs/kernel_test_sgtable.c, which takes the structs from
-- `kmalloc`, and of kernel_test_sgtable_batch.c there, which takes them from `kzalloc`. The pages are
-- dealt out as in `Tables`.
--
-- A call of `sg_alloc_table` that fails leaves its table without entries. `sg_free_table` reads the
-- table, so that it faults on one to which nothing was ever written.
pub mod Cases
use dsa_test.Base.{
  ℕ, zero, suc, ◌+◌, Bool, true, false, Option, none, some, List, [], ◌∷◌, if◌then◌else◌, Outcome,
  returns, fault, ◌>>=◌,
}
use dsa_test.Tables.{TablePair, table_nents, deal}

-- A `struct sg_table`
pub data Slot : Type 0 where
  uninitialised without_entries with_entries : Slot

-- The first loop: all structs as `kmalloc` (`uninitialised`) or `kzalloc` (`without_entries`) gives
-- them.
pub new_tables : Slot → ℕ → List (Slot × Slot)
new_tables given zero = []
new_tables given (suc w) = (given, given) ∷ new_tables given w

-- The second loop, which makes `k` calls before it comes to these tables: whether it ends with
-- `goto free_sgt`, and the tables.
pub sg_alloc_tables : (ℕ → Bool) → ℕ → List (Slot × Slot) → Bool × List (Slot × Slot)
sg_alloc_tables alloc_fails k [] = (false, [])
sg_alloc_tables alloc_fails k ((src, dst) ∷ ts) =
    let (failed, ts') = sg_alloc_tables alloc_fails (k + 2) ts in
    if alloc_fails k
    then (true, (without_entries, dst) ∷ ts)
    else if alloc_fails (k + 1)
    then (true, (with_entries, without_entries) ∷ ts)
    else (failed, (with_entries, with_entries) ∷ ts')

pub sg_free_table : Slot → Outcome Slot
sg_free_table uninitialised = fault
sg_free_table without_entries = returns without_entries
sg_free_table with_entries = returns without_entries

-- `free_sgt`
pub free_sgt : List (Slot × Slot) → Outcome (List (Slot × Slot))
unfolding sg_free_table
free_sgt [] = returns []
free_sgt ((src, dst) ∷ ts) = sg_free_table src >>= λ src'.
    sg_free_table dst >>= λ dst'. free_sgt ts >>= λ ts'. returns ((src', dst') ∷ ts')

-- The tables that `vmalloc_to_sgtable` leaves.
pub left_tables :
    Slot → (ℕ → Bool) → (ℕ → Option ℕ) → ℕ → ℕ → List ℕ → ℕ → ℕ → Outcome (List (Slot × Slot))
unfolding new_tables sg_alloc_tables free_sgt
left_tables given alloc_fails to_page area area2 arr npages enabled_wqs =
    let (failed, ts) = sg_alloc_tables alloc_fails 0 (new_tables given enabled_wqs) in
    if failed
    then free_sgt ts
    else elim (deal to_page area area2 arr npages (table_nents npages enabled_wqs) enabled_wqs 0) [
      | none ↦ free_sgt ts
      | some pages ↦ returns ts
    ]

-- How a table is left that was freed, or was filled.
pub slot_after : Option (List TablePair) → Slot
slot_after none = without_entries
slot_after (some pages) = with_entries
