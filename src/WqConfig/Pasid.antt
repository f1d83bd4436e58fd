-- ===== src/WqConfig/Pasid.antt =====
-- What DSA_Kernelspace_Test/1.kernel_test/kernel_wq_configuration.c does to the PASID of a device.
use dsa_test.Base.{
  ℕ, suc, ◌≡◌, refl, true, false, Option, none, some, List, ◌∷◌, pos, is_nonzero, returns, ◌⊎◌, inl,
  inr, Bool-cases, Option-cases, get_elem?,
}
use dsa_test.WqConfig.{
  IdxdWq, IdxdDevice, Iommu, idxd_enable_system_pasid, idxd_disable_system_pasid, renew, collect,
  init_dsa,
}

-- `idxd_enable_system_pasid` keeps a PASID exactly when it returns its number and the device has it;
-- on every error the device is unchanged and no PASID is kept.
pub enable_system_pasid-all_or_nothing :
    (iommu : Iommu) (idxd : IdxdDevice)
    → (let r = idxd_enable_system_pasid iommu idxd in
        ((p : ℕ) × (iommu.alloc_global_pasid ≡ some p)
          × (r ≡ (pos p, record idxd { user_intr = true; pasid = p }, some p)))
        ⊎ ((is_nonzero (r.0) ≡ true) × (r.1 ≡ idxd) × (r.2 ≡ none)))
unfolding idxd_enable_system_pasid
enable_system_pasid-all_or_nothing iommu idxd = elim (Bool-cases iommu.domain) [
  | inr no_domain ↦ rw no_domain (inr (refl, refl, refl))
  | inl domain ↦ elim (Option-cases iommu.alloc_global_pasid) [
    | inl full ↦ rw (domain, full) (inr (refl, refl, refl))
    | inr (p, given) ↦ elim (Bool-cases (is_nonzero iommu.attach_device_pasid)) [
      | inl refused ↦ rw (domain, given, refused) (inr (refused, refl, refl))
      | inr attached ↦ rw (domain, given, attached) (inl (p, refl, refl))
    ]
  ]
]

-- When eight devices are there, the third one's second queue is enabled and a dmaengine queue, and the
-- kernel gives and attaches a PASID other than 0, then `init_dsa` returns 0 and the device has that
-- PASID, but the success is taken for a failure: `IDXD_FLAG_PASID_ENABLED` stays as it was.
pub init_dsa_misses_flag :
    (iommu : Iommu) (d0 d1 d2 d3 d4 d5 d6 d7 : IdxdDevice) (wq : IdxdWq)
    (more : List (Option IdxdDevice)) (p : ℕ)
    → get_elem? d2.wqs 1 ≡ some wq
    → wq.enabled ≡ true
    → wq.dmaengine ≡ true
    → iommu.domain ≡ true
    → iommu.alloc_global_pasid ≡ some (suc p)
    → iommu.attach_device_pasid ≡ pos 0
    → init_dsa iommu
        (some d0 ∷ some d1 ∷ some d2 ∷ some d3 ∷ some d4 ∷ some d5 ∷ some d6 ∷ some d7 ∷ more)
      ≡ returns (pos 0, some (record d2 { pasid = suc p; user_intr = true; sva = false }))
unfolding init_dsa collect renew idxd_enable_system_pasid idxd_disable_system_pasid
init_dsa_misses_flag iommu d0 d1 d2 d3 d4 d5 d6 d7 wq more p second on dma domain given attached =
    rw (second, on, dma, domain, given, attached) (rw (domain, idxd_disable_system_pasid) refl)
