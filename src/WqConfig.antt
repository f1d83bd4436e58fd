-- ===== src/WqConfig.antt =====
-- DSA_Kernelspace_Test/1.kernel_test/kernel_wq_configuration.c, which gives the third DSA device a
-- new system PASID.
--
-- What the kernel returns is an argument. A PASID fits 20 bits, so that the `int` which
-- `idxd_enable_system_pasid` returns is the number itself.
pub mod Pasid
mod Examples
use dsa_test.Base.{
  ℕ, zero, suc, ◌+◌, Bool, true, false, Option, none, some, List, [], ◌∷◌, ℤ, pos, neg, is_nonzero,
  Outcome, returns, fault, ◌>>=◌, deref, get_elem?, length, ltb, if◌then◌else◌, take,
}

-- `IOMMU_PASID_INVALID`
abbrev pub pasid_invalid : ℕ
pasid_invalid = 0xffffffff

-- `-EPERM`, `-ENOSPC`
abbrev pub eperm : ℤ
eperm = neg 1

abbrev pub enospc : ℤ
enospc = neg 28

-- `struct idxd_wq`, as far as it is read
pub record IdxdWq : Type 0 where
  pub enabled : Bool
  pub dmaengine : Bool

-- `struct idxd_device`: `sva` tells whether the pointer is not NULL, and `pasid_enabled` is
-- `IDXD_FLAG_PASID_ENABLED`.
pub record IdxdDevice : Type 0 where
  pub wqs : List IdxdWq
  pub pasid : ℕ
  pub user_intr : Bool
  pub sva : Bool
  pub pasid_enabled : Bool

-- What the kernel answers: whether the device has a domain, the PASID that it allocates (`none` is
-- `IOMMU_PASID_INVALID`), and what it returns when that is attached.
pub record Iommu : Type 0 where
  pub domain : Bool
  pub alloc_global_pasid : Option ℕ
  pub attach_device_pasid : ℤ

-- `idxd_enable_system_pasid`: the return value, the device, and the PASID that stays allocated.
pub idxd_enable_system_pasid : Iommu → IdxdDevice → ℤ × IdxdDevice × Option ℕ
idxd_enable_system_pasid iommu idxd =
    if iommu.domain
    then elim iommu.alloc_global_pasid [
      | none ↦ (enospc, idxd, none)
      | some pasid ↦
          if is_nonzero iommu.attach_device_pasid
          then (iommu.attach_device_pasid, idxd, none)
          else (pos pasid, record idxd { user_intr = true; pasid = pasid }, some pasid)
    ]
    else (eperm, idxd, none)

-- `idxd_disable_system_pasid`
pub idxd_disable_system_pasid : Iommu → IdxdDevice → IdxdDevice
idxd_disable_system_pasid iommu idxd =
    if iommu.domain
    then record idxd { user_intr = false; sva = false; pasid = pasid_invalid }
    else idxd

-- The end of `init_dsa`: the old PASID goes, a new one is asked for, and the flag is set when the
-- result is 0.
pub renew : Iommu → IdxdDevice → IdxdDevice
unfolding idxd_enable_system_pasid idxd_disable_system_pasid
renew iommu idxd =
    let (rc, idxd', kept) = idxd_enable_system_pasid iommu (idxd_disable_system_pasid iommu idxd) in
    if is_nonzero rc then idxd' else record idxd' { pasid_enabled = true }

-- The loop over the PCI devices, which stops at the eighth and prints the capabilities of each:
-- without driver data (`none`) it reads through NULL.
pub collect : ℕ → List (Option IdxdDevice) → Outcome (List IdxdDevice)
collect zero devices = returns []
collect (suc n) [] = returns []
collect (suc n) (d ∷ ds) = deref d >>= λ idxd. collect n ds >>= λ rest. returns (idxd ∷ rest)

-- `init_dsa`: the return value, and the device that it changed, if it did.
pub init_dsa : Iommu → List (Option IdxdDevice) → Outcome (ℤ × Option IdxdDevice)
unfolding collect renew
init_dsa iommu devices = collect 8 devices >>= λ pci_dev_list.
    if ltb (length pci_dev_list) 8
    then returns (neg 1, none)
    else (deref (get_elem? pci_dev_list 2) >>= λ idxd_device.
        deref (get_elem? idxd_device.wqs 1) >>= λ wq.
        if wq.enabled
        then if wq.dmaengine
          then returns (pos 0, some (renew iommu idxd_device))
          else returns (pos 0, none)
        else returns (neg 1, none))
