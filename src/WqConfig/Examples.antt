-- ===== src/WqConfig/Examples.antt =====
-- Eight devices, whose third gets PASID 7.
use dsa_test.Base.{◌≡◌, refl, true, false, some, [], ◌∷◌, pos, returns}
use dsa_test.WqConfig.{IdxdWq, IdxdDevice, Iommu, init_dsa}
use dsa_test.WqConfig.Pasid.{init_dsa_misses_flag}

abbrev a_wq : IdxdWq
a_wq = record { enabled = true; dmaengine = true }

abbrev a_device : IdxdDevice
a_device = record {
  wqs = a_wq ∷ a_wq ∷ [];
  pasid = 3;
  user_intr = true;
  sva = true;
  pasid_enabled = false;
}

abbrev iommu : Iommu
iommu = record { domain = true; alloc_global_pasid = some 7; attach_device_pasid = pos 0 }

init_dsa_misses_flag_example :
    init_dsa iommu (
      some a_device
      ∷ some a_device
      ∷ some a_device
      ∷ some a_device
      ∷ some a_device
      ∷ some a_device
      ∷ some a_device
      ∷ some a_device
      ∷ [])
    ≡ returns (pos 0, some (record a_device { pasid = 7; user_intr = true; sva = false }))
init_dsa_misses_flag_example =
    init_dsa_misses_flag iommu a_device a_device a_device a_device a_device a_device a_device
      a_device a_wq [] 6 refl refl refl refl refl refl
