-- ===== src/Retry/Resume.antt =====
-- How page faults move the descriptor of `memmove_userguide_ref.c`.
mod Examples
use dsa_test.Base.{ℕ, zero, suc, ◌+◌, ◌≤◌, ◌<◌, ◌≡◌, ◌≢◌, ◌^◌, refl, arith, inl, ◌⊎◌, inr, ◌∙◌, ap}
use dsa_test.Desc.{HwDesc}
use dsa_test.Retry.{
  Comp, Attempt, Exit, unfinished, Next, leave, again, page_fault_nobof, op_status, resume, judge,
  round, rounds,
}

-- The bytes that the first `j` rounds from number `k` on completed.
unfoldable pub completed : (ℕ → Attempt) → ℕ → ℕ → ℕ
completed attempts k zero = 0
completed attempts k (suc j) = (attempts k).comp.bytes_completed + completed attempts (k + 1) j

-- `hw'` asks for what `hw` asks for, but for the first `done` bytes.
pub record IsRest (hw : HwDesc) (done : ℕ) (hw' : HwDesc) : Type 0 where
  pub src : hw'.src_addr ≡ hw.src_addr + done
  pub dst : hw'.dst_addr ≡ hw.dst_addr + done
  pub size : hw'.xfer_size + done ≡ hw.xfer_size
  pub opcode : hw'.opcode ≡ hw.opcode
  pub flags : hw'.flags ≡ hw.flags

-- The buffers do not wrap round the address space.
pub record Fits (hw : HwDesc) : Type 0 where
  pub src : hw.src_addr + hw.xfer_size < 2 ^ 64
  pub dst : hw.dst_addr + hw.xfer_size < 2 ^ 64
  pub size : hw.xfer_size < 2 ^ 32

pub resume-IsRest :
    (hw : HwDesc) (c : Comp)
    → Fits hw
    → c.bytes_completed ≤ hw.xfer_size
    → IsRest hw c.bytes_completed (resume hw c) × Fits (resume hw c)
unfolding resume
resume-IsRest hw c f h = omega arith

IsRest-trans : {a b c : HwDesc} {m n : ℕ} → IsRest a m b → IsRest b n c → IsRest a (m + n) c
IsRest-trans p q = omega arith

-- Rounds `k` to `k + j` all reported a page fault.
pub AllFaulted : (ℕ → Attempt) → ℕ → ℕ → Type 0
AllFaulted attempts k zero = Unit {0}
AllFaulted attempts k (suc j) =
    (op_status (attempts k).comp.status ≡ page_fault_nobof) × AllFaulted attempts (k + 1) j

pub round-again :
    (enq_max poll_max : ℕ) (a : Attempt) (hw : HwDesc) {hw' : HwDesc}
    → round enq_max poll_max a hw ≡ again hw'
    → (hw' ≡ resume hw a.comp) × (op_status a.comp.status ≡ page_fault_nobof)
unfolding round judge
round-again enq_max poll_max a hw e = ground arith

pub Next-cases : (x : Next) → ((e : Exit) × (x ≡ leave e)) ⊎ ((hw : HwDesc) × (x ≡ again hw))
Next-cases (leave e) = inl (e, refl)
Next-cases (again hw) = inr (hw, refl)

-- How the rounds end after `j` page faults: the next round leaves the loop, or there is no fuel left.
abbrev pub EndsAfter : ℕ → ℕ → (ℕ → Attempt) → ℕ → ℕ → Exit × HwDesc → ℕ → Type 0
EndsAfter enq_max poll_max attempts fuel k (exit, hw) j =
    ((j < fuel) × (round enq_max poll_max (attempts (k + j)) hw ≡ leave exit))
    ⊎ ((j ≡ fuel) × (exit ≡ unfinished))

EndsAfter-suc :
    (enq_max poll_max : ℕ) (attempts : ℕ → Attempt) (fuel k : ℕ) (r : Exit × HwDesc) (j : ℕ)
    → EndsAfter enq_max poll_max attempts fuel (k + 1) r j
    → EndsAfter enq_max poll_max attempts (suc fuel) k r (suc j)
EndsAfter-suc enq_max poll_max attempts fuel k r j (inl (h, e)) =
    let next : k + suc j ≡ k + 1 + j = omega arith in inl (omega arith, rw next e)
EndsAfter-suc enq_max poll_max attempts fuel k r j (inr (h, e)) = inr (omega arith, e)

-- The rounds run on through `j` page faults, until a round leaves the loop or the fuel ends; and the
-- descriptor then asks for exactly the bytes that these `j` did not complete, at their places in both
-- buffers, if no record claims more bytes than were asked for.
pub rounds-IsRest :
    (enq_max poll_max : ℕ) (attempts : ℕ → Attempt) (fuel k : ℕ) (hw : HwDesc)
    → Fits hw
    → ((j : ℕ) → completed attempts k j ≤ hw.xfer_size)
    → let r = rounds enq_max poll_max attempts fuel k hw in
      (j : ℕ) × AllFaulted attempts k j
      × EndsAfter enq_max poll_max attempts fuel k r j
      × IsRest hw (completed attempts k j) r.1
unfolding rounds completed AllFaulted
rounds-IsRest enq_max poll_max attempts zero k hw f h = (0, tt, inr (refl, refl), omega arith)
rounds-IsRest enq_max poll_max attempts (suc fuel) k hw f h =
    elim (Next-cases (round enq_max poll_max (attempts k) hw)) [
      | inl (x, e) ↦
          let here : k + 0 ≡ k = omega arith in
          (0, tt, rw (e, rounds) (inl (omega arith, rw here e)), rw (e, rounds) (omega arith))
      | inr (hw', e) ↦
          let (same, faulted) = round-again enq_max poll_max (attempts k) hw e in
          let (rest, fits) = resume-IsRest hw (attempts k).comp f (omega (arith, h 1)) in
          let (j, all, ended, tail) =
            rounds-IsRest enq_max poll_max attempts fuel (k + 1) (resume hw (attempts k).comp) fits
              (λ j. omega (arith, h (suc j))) in
          (
            suc j,
            (faulted, all),
            rw (e, rounds, same) (EndsAfter-suc enq_max poll_max attempts fuel k _ j ended),
            rw (e, rounds, same) (IsRest-trans rest tail),
          )
    ]

round-unfinished :
    (enq_max poll_max : ℕ) (a : Attempt) (hw : HwDesc)
    → round enq_max poll_max a hw ≢ leave unfinished
unfolding round judge
round-unfinished enq_max poll_max a hw e = ground arith

-- If some round `k + j` would report no page fault, `j + 1` rounds are enough to end.
pub rounds_end :
    (enq_max poll_max : ℕ) (attempts : ℕ → Attempt) (fuel k j : ℕ) (hw : HwDesc)
    → j < fuel
    → op_status (attempts (k + j)).comp.status ≢ page_fault_nobof
    → (rounds enq_max poll_max attempts fuel k hw).0 ≢ unfinished
unfolding rounds
rounds_end enq_max poll_max attempts zero k j hw h n = absurd (omega arith)
rounds_end enq_max poll_max attempts (suc fuel) k zero hw h n =
    elim (Next-cases (round enq_max poll_max (attempts k) hw)) [
      | inl (x, e) ↦
          rw (e, rounds) (λ u. round-unfinished enq_max poll_max (attempts k) hw (e ∙ ap leave u))
      | inr (hw', e) ↦
          let start : k + 0 ≡ k = omega arith in
          absurd ((rw start at n) (round-again enq_max poll_max (attempts k) hw e).1)
    ]
rounds_end enq_max poll_max attempts (suc fuel) k (suc j) hw h n =
    elim (Next-cases (round enq_max poll_max (attempts k) hw)) [
      | inl (x, e) ↦
          rw (e, rounds) (λ u. round-unfinished enq_max poll_max (attempts k) hw (e ∙ ap leave u))
      | inr (hw', e) ↦
          let next : k + suc j ≡ k + 1 + j = omega arith in
          rw (e, rounds)
            (rounds_end enq_max poll_max attempts fuel (k + 1) j hw' (omega arith) (rw next at n))
    ]
