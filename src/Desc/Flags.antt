-- ===== src/Desc/Flags.antt =====
-- What `idxd_desc_dma_submit_memcpy` and `op_flag_setup` of
-- DSA_Kernelspace_Test/3.kernel_test_N_DSAs/kernel_test.h put into a descriptor, and when they give
-- none.
use dsa_test.Base.{
  ℕ, ◌%◌, ◌^◌, ◌≤◌, ◌<◌, ◌≡◌, refl, ◌↔◌, ◌⊎◌, inl, inr, Option, none, some, arith, bit_and, ◌==◌,
  Bool-cases, ltb, false, ap,
}
use dsa_test.Desc.Batch.{transfer}
use dsa_test.Desc.{
  enabled, prepared, Desc, Wq, disabled, op_flag_bof, op_flag_crav, op_flag_rcr, op_flag_cc,
  opcode_memmove, op_flag_setup, idxd_prep_desc_common, idxd_desc_dma_submit_memcpy,
}

pub op_flag_setup-cases :
    (p flags : ℕ) → (op_flag_setup p flags ≡ 0x0c) ⊎ (op_flag_setup p flags ≡ 0x1c)
unfolding op_flag_setup
op_flag_setup-cases p flags = elim (Bool-cases (bit_and flags p == 0)) [
  | inl e ↦ inl (rw e)
  | inr e ↦ inr (rw e)
]

-- Whatever flags a caller passes, the descriptor asks for a completion record at a valid address,
-- and neither for blocking on page faults nor for the cache.
op_flag_setup_drops :
    (p flags : ℕ)
    → (bit_and (op_flag_setup p flags) op_flag_crav ≡ op_flag_crav)
      × (bit_and (op_flag_setup p flags) op_flag_rcr ≡ op_flag_rcr)
      × (bit_and (op_flag_setup p flags) op_flag_bof ≡ 0)
      × (bit_and (op_flag_setup p flags) op_flag_cc ≡ 0)
op_flag_setup_drops p flags = elim (op_flag_setup-cases p flags) [
  | inl e ↦ rw e (refl, refl, refl, refl)
  | inr e ↦ rw e (refl, refl, refl, refl)
]

-- `idxd_desc_dma_submit_memcpy` gives NULL exactly when the queue is disabled, the length is over
-- the device's limit, or the driver has no descriptor.
pub submit_memcpy-none_iff :
    (p : ℕ) (wq : Wq) (alloc : Option Desc) (dst src len flags : ℕ)
    → (idxd_desc_dma_submit_memcpy p wq alloc dst src len flags ≡ none)
      ↔ ((wq.state ≡ disabled) ⊎ (wq.idxd.max_xfer_bytes < len) ⊎ (alloc ≡ none))
unfolding idxd_desc_dma_submit_memcpy
submit_memcpy-none_iff p wq alloc dst src len flags = (ground arith, ground arith)

-- A descriptor that it gives is the driver's, made a MEMMOVE of exactly the bytes asked for (when
-- the device's limit fits `xfer_size`), and it asks neither for BOF nor for CC.
pub submit_memcpy-some :
    (p : ℕ) (wq : Wq) (alloc : Option Desc) (dst src len flags : ℕ) {d : Desc}
    → wq.idxd.max_xfer_bytes < 2 ^ 32
    → idxd_desc_dma_submit_memcpy p wq alloc dst src len flags ≡ some d
    → (d.hw.opcode ≡ opcode_memmove)
      × (d.hw.src_addr ≡ src)
      × (d.hw.dst_addr ≡ dst)
      × (d.hw.xfer_size ≡ len)
      × (d.hw.completion_addr ≡ d.compl_dma)
      × (bit_and d.hw.flags op_flag_bof ≡ 0)
      × (bit_and d.hw.flags op_flag_cc ≡ 0)
unfolding idxd_desc_dma_submit_memcpy idxd_prep_desc_common
submit_memcpy-some p wq alloc dst src len flags small h =
    ground (arith, op_flag_setup_drops p flags)

-- With a descriptor from the driver, a length within the device's limit gives one.
pub submit_memcpy-given :
    (p : ℕ) (wq : Wq) (alloc : Option Desc) (dst src len flags : ℕ) {g : Desc}
    → wq.state ≡ enabled
    → wq.idxd.max_xfer_bytes < 2 ^ 32
    → alloc ≡ some g
    → len ≤ wq.idxd.max_xfer_bytes
    → (d : Desc) × (idxd_desc_dma_submit_memcpy p wq alloc dst src len flags ≡ some d)
      × (transfer d.hw ≡ record { src = src; dst = dst; len = len })
unfolding idxd_desc_dma_submit_memcpy idxd_prep_desc_common
submit_memcpy-given p wq alloc dst src len flags {g} on small gave fits =
    let within : ltb wq.idxd.max_xfer_bytes len ≡ false = ground arith in
    let whole : len % 2 ^ 32 ≡ len = ground arith in
    (
      prepared p g dst src len flags,
      rw (on, within, gave) refl,
      ap (λ n. record { src = src; dst = dst; len = n }) whole,
    )
