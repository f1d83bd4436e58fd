-- ===== src/Basecodes/Rounds.antt =====
-- How the rounds of `dsa_copy` in kernel_test_basecodes.c end.
use dsa_test.Base.{
  ℕ, zero, suc, ◌+◌, ◌*◌, ◌^◌, ◌≤◌, ◌<◌, ◌≡◌, ◌≢◌, refl, ◌⊎◌, inl, inr, Bool, Option, none, some,
  arith, returns, fault, ◌↔◌, Option-cases,
}
use dsa_test.Desc.{HwDesc, Desc, Wq, disabled}
use dsa_test.Retry.{Attempt, Exit, unfinished}
use dsa_test.Desc.Flags.{submit_memcpy-none_iff}
use dsa_test.Basecodes.{
  Retrying, Next, leave, again, round, rounds, dsa_copy, page_size, page_order, Report,
  poll_retry_max, submit_flags, fault_retry_max, idxd_desc_dma_submit_memcpy,
}

pub Next-cases :
    (x : Next) → ((e : Exit) × (r : Retrying) × (x ≡ leave e r)) ⊎ ((r : Retrying) × (x ≡ again r))
Next-cases (leave e r) = inl (e, r, refl)
Next-cases (again r) = inr (r, refl)

module _ (poll_max fault_max : ℕ) where
  round-again :
      (a : Attempt) (r : Retrying) {r' : Retrying}
      → round poll_max fault_max a r ≡ again r'
      → (r.faults < fault_max) × (r'.faults ≡ r.faults + 1)
  unfolding round
  round-again a r e = ground arith

  round-unfinished :
      (a : Attempt) (r r' : Retrying) → round poll_max fault_max a r ≢ leave unfinished r'
  unfolding round
  round-unfinished a r r' e = ground arith

  -- The limit on page faults ends the rounds, whatever the engine reports, in at most as many rounds as
  -- are left to it, and one.
  pub rounds_terminate :
      (attempts : ℕ → Attempt) (fuel k : ℕ) (r : Retrying)
      → r.faults ≤ fault_max
      → fault_max < r.faults + fuel
      → (rounds poll_max fault_max attempts fuel k r).0 ≢ unfinished
  unfolding rounds
  rounds_terminate attempts zero k r b h = absurd (omega arith)
  rounds_terminate attempts (suc fuel) k r b h =
      elim (Next-cases (round poll_max fault_max (attempts k) r)) [
        | inl (x, r', e) ↦ rw (e, rounds) (λ u. round-unfinished (attempts k) r r' (rw u at e))
        | inr (r', e) ↦
            let (under, next) = round-again (attempts k) r e in
            rw (e, rounds) (rounds_terminate attempts fuel (k + 1) r' (omega arith) (omega arith))
      ]

pub dsa_copy-without_channel :
    (p : ℕ) (alloc : Option Desc) (attempts : ℕ → Attempt) (dst1 src1 : ℕ) (differs : Bool)
    → dsa_copy p none alloc attempts dst1 src1 differs ≡ fault
unfolding dsa_copy
dsa_copy-without_channel p alloc attempts dst1 src1 differs = refl

-- `dsa_copy` faults exactly when there is no channel, or the queue is disabled, or the device's
-- limit is below the length, or the driver has no descriptor: NULL is no error for `IS_ERR`.
pub dsa_copy-fault_iff :
    (p : ℕ) (wq : Wq) (alloc : Option Desc) (attempts : ℕ → Attempt) (dst1 src1 : ℕ)
    (differs : Bool)
    → (dsa_copy p none alloc attempts dst1 src1 differs ≡ fault)
      × ((dsa_copy p (some wq) alloc attempts dst1 src1 differs ≡ fault) ↔ (
          (wq.state ≡ disabled)
          ⊎ (wq.idxd.max_xfer_bytes < page_size * 2 ^ page_order)
          ⊎ (alloc ≡ none)))
unfolding dsa_copy
dsa_copy-fault_iff p wq alloc attempts dst1 src1 differs =
    let none_iff =
      submit_memcpy-none_iff p wq alloc dst1 src1 (page_size * 2 ^ page_order) submit_flags in
    (
      refl,
      elim (Option-cases (
          idxd_desc_dma_submit_memcpy p wq alloc dst1 src1 (page_size * 2 ^ page_order)
            submit_flags)) [
              | inl e ↦ (λ f. none_iff.0 e, λ c. rw e)
              | inr (d, e) ↦
                  (λ f. absurd (ground arith), λ c. absurd (ground (arith, none_iff.1 c)))
            ],
    )

ends_from_start :
    (attempts : ℕ → Attempt) (hw : HwDesc)
    → (rounds poll_retry_max fault_retry_max attempts
        (suc fault_retry_max)
        0
        (record { poll = 0; faults = 0; hw = hw })).0
      ≢ unfinished
ends_from_start attempts hw =
    rounds_terminate poll_retry_max fault_retry_max attempts (suc fault_retry_max) 0 _ (omega arith)
      (omega arith)

-- When `dsa_copy` returns, its rounds have ended.
pub dsa_copy-ends :
    (p : ℕ) (chan : Option Wq) (alloc : Option Desc) (attempts : ℕ → Attempt) (dst1 src1 : ℕ)
    (differs : Bool) {r : Report}
    → dsa_copy p chan alloc attempts dst1 src1 differs ≡ returns r
    → r.exit ≢ unfinished
unfolding dsa_copy
dsa_copy-ends p chan alloc attempts dst1 src1 differs e = grind (arith, ends_from_start)
