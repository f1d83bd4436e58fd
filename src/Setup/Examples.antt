-- ===== src/Setup/Examples.antt =====
-- A machine with two devices, one of which is not in use.
use dsa_test.Base.{ℕ, ◌≡◌, true, false, Option, none, some, List, [], ◌∷◌, ◌↔◌, ◌==◌}
use dsa_test.Setup.{
  IdxdWq, IdxdDevice, Kernel, EnabledWq, sgtable_to_dma_map, unmap_tables, unmapped, freed,
}
use dsa_test.Setup.Unmapped.{NoneFails, dsa_copy-unmaps}

abbrev good : ℕ → IdxdWq
good i = record { name = i; enabled = true; dmaengine = true; kernel = true; pasid_enabled = true }

abbrev devices : List (Option IdxdDevice)
devices =
    none
    ∷ some (record {
      enabled = true;
      configurable = true;
      wqs = good 0 ∷ record (good 1) { dmaengine = false } ∷ good 2 ∷ [];
    })
    ∷ []

abbrev six_areas : List (Option ℕ)
six_areas = some 1 ∷ some 2 ∷ some 3 ∷ some 4 ∷ some 5 ∷ some 6 ∷ []

abbrev os : Kernel
os = record { kthread_run = true; vmallocs = six_areas; devices = devices }

abbrev two_queues : List EnabledWq
two_queues =
    record { enabled_wq_num = 0; wq = good 0 } ∷ record { enabled_wq_num = 1; wq = good 2 } ∷ []

dsa_copy-unmaps_example :
    (freed (unmap_tables two_queues) ≡ unmapped (unmap_tables two_queues))
    × ((unmapped (unmap_tables two_queues) ≡ sgtable_to_dma_map (λ n dst. n == 1) two_queues)
        ↔ NoneFails (λ n dst. n == 1) two_queues)
dsa_copy-unmaps_example = dsa_copy-unmaps (λ n dst. n == 1) two_queues
