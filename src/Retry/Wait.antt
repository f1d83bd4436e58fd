-- ===== src/Retry/Wait.antt =====
-- What the bounded waiting loops of `memmove_userguide_ref.c` leave in their counters, and what the
-- tests behind them make of it.
use dsa_test.Base.{
  refl, ℕ, zero, suc, ◌+◌, ◌≤◌, ◌<◌, ◌≡◌, ◌↔◌, Bool, true, false, arith, dec_lt, lt→ltb, Bool-cases,
  inr, inl,
}
use dsa_test.Desc.{HwDesc}
use dsa_test.Retry.{
  Exit, exit_code, moved, poll_limit, unfinished, Attempt, enqcmd_limit, leave, wait_while, judge,
  round, failed,
}

module _ (busy : ℕ → Bool) (max : ℕ) where
  -- It stops at the first test that is not busy.
  pub wait_while-stop :
      (fuel retry j : ℕ)
      → retry ≤ j
      → j ≤ max
      → max < retry + fuel
      → ((i : ℕ) → retry ≤ i → i < j → busy i ≡ true)
      → busy j ≡ false
      → wait_while busy max fuel retry ≡ j
  unfolding wait_while
  wait_while-stop zero retry j a b c h s = absurd (omega arith)
  wait_while-stop (suc fuel) retry j a b c h s = elim (dec_lt retry j) [
    | yes p ↦
        rw (h retry (omega arith) p, lt→ltb retry max (omega arith))
          (wait_while-stop fuel (retry + 1) j (omega arith) b (omega arith)
            (λ i l u. h i (omega arith) u) s)
    | no p ↦ let e : retry ≡ j = omega arith in rw (e, s)
  ]

  -- Where every test is busy, the counter passes the limit by one.
  pub wait_while-exhaust :
      (fuel retry : ℕ)
      → retry ≤ max
      → max < retry + fuel
      → ((i : ℕ) → retry ≤ i → i ≤ max → busy i ≡ true)
      → wait_while busy max fuel retry ≡ suc max
  unfolding wait_while
  wait_while-exhaust zero retry a c h = absurd (omega arith)
  wait_while-exhaust (suc fuel) retry a c h = elim (dec_lt retry max) [
    | yes p ↦
        rw (h retry (omega arith) a, lt→ltb retry max p)
          (wait_while-exhaust fuel (retry + 1) (omega arith) (omega arith)
            (λ i l u. h i (omega arith) u))
    | no p ↦ ground (arith, h retry (omega arith) a)
  ]

  -- It leaves the limit itself exactly when test number `max` is the first that is not busy.
  pub wait_while-eq_max :
      (fuel retry : ℕ)
      → retry ≤ max
      → max < retry + fuel
      → wait_while busy max fuel retry ≡ max
      → (busy max ≡ false) × ((i : ℕ) → retry ≤ i → i < max → busy i ≡ true)
  unfolding wait_while
  wait_while-eq_max zero retry a c e = absurd (omega arith)
  wait_while-eq_max (suc fuel) retry a c e = elim (Bool-cases (busy retry)) [
    | inr free ↦
        let here : retry ≡ max = rw free at e in (rw (← here) free, λ i l u. absurd (omega arith))
    | inl held ↦ elim (dec_lt retry max) [
      | no p ↦ absurd (ground arith)
      | yes p ↦
          let rest : wait_while busy max fuel (retry + 1) ≡ max =
            rw (held, lt→ltb retry max p) at e in
          let (free, before) =
            wait_while-eq_max fuel (retry + 1) (omega arith) (omega arith) rest in
          (
            free,
            λ i l u. elim (dec_lt retry i) [
              | yes q ↦ before i (omega arith) u
              | no q ↦ let same : retry ≡ i = omega arith in rw (← same) held
            ],
          )
    ]
  ]

-- The program reports that the limit of ENQCMD retries is exceeded exactly when the attempt
-- numbered `enq_max` is the first that the device accepts.
pub round-enqcmd_limit_iff :
    (enq_max poll_max : ℕ) (a : Attempt) (hw : HwDesc)
    → (round enq_max poll_max a hw ≡ leave enqcmd_limit)
      ↔ ((a.rejects enq_max ≡ false) × ((i : ℕ) → i < enq_max → a.rejects i ≡ true))
unfolding round judge
round-enqcmd_limit_iff enq_max poll_max a hw = (
  λ e.
      let stopped : wait_while a.rejects enq_max (suc enq_max) 0 ≡ enq_max = ground arith in
      let (free, before) =
        wait_while-eq_max a.rejects enq_max (suc enq_max) 0 (omega arith) (omega arith) stopped in
      (free, λ i u. before i (omega arith) u),
  λ h.
      let stopped =
        wait_while-stop a.rejects enq_max (suc enq_max) 0 enq_max (omega arith) (omega arith)
          (omega arith) (λ i l u. h.1 i u) h.0 in
      rw stopped (ground arith),
)

-- When the queue rejects every attempt, and the completion record reads 0 for ever, neither limit is
-- noticed: the round goes on to judge the record that reads 0, and reports a failure with status 0.
pub round-exhausted :
    (enq_max poll_max : ℕ) (a : Attempt) (hw : HwDesc)
    → ((i : ℕ) → a.rejects i ≡ true)
    → ((i : ℕ) → a.busy i ≡ true)
    → a.comp.status ≡ 0
    → round enq_max poll_max a hw ≡ leave (failed 0)
unfolding round judge
round-exhausted enq_max poll_max a hw r b z =
    rw
      (
        wait_while-exhaust a.rejects enq_max (suc enq_max) 0 (omega arith) (omega arith)
            (λ i l u. r i),
        wait_while-exhaust a.busy poll_max (suc poll_max) 0 (omega arith) (omega arith)
            (λ i l u. b i),
        z,
      )
      (ground arith)

-- `main` returns EXIT_SUCCESS exactly when the rounds end with success and `memcmp` finds no
-- difference.
pub exit_code_iff :
    (x : Exit) (differs : Bool) → (exit_code x differs ≡ 0) ↔ ((x ≡ moved) × (differs ≡ false))
unfolding exit_code
exit_code_iff moved true = (λ e. absurd (omega arith), λ h. cc)
exit_code_iff moved false = (λ e. (refl, refl), λ h. refl)
exit_code_iff enqcmd_limit differs = (λ e. absurd (omega arith), λ h. cc)
exit_code_iff poll_limit differs = (λ e. absurd (omega arith), λ h. cc)
exit_code_iff unfinished differs = (λ e. absurd (omega arith), λ h. cc)
exit_code_iff (failed n) differs = (λ e. absurd (omega arith), λ h. cc)

-- A record that shows up at test `p` at the latest stops the counter there.
pub wait_while-le :
    (busy : ℕ → Bool) (max p fuel retry : ℕ)
    → ((n : ℕ) → p ≤ n → busy n ≡ false)
    → p ≤ max
    → retry ≤ p
    → wait_while busy max fuel retry ≤ p
unfolding wait_while
wait_while-le busy max p zero retry quiet b h = h
wait_while-le busy max p (suc fuel) retry quiet b h = elim (Bool-cases (busy retry)) [
  | inr free ↦ rw free h
  | inl waits ↦
      let under : retry < p = ground (arith, quiet retry) in
      rw (waits, lt→ltb retry max (omega arith))
        (wait_while-le busy max p fuel (retry + 1) quiet b (omega arith))
]
