-- ===== src/Portal/Outcomes.antt =====
-- When `main` of
-- DSA_Userspace_Test/memmove_CPU_VS_DSA-userguide_ref-codes_TEST/memmove_userguide_ref.c ends, and
-- with which exit code.
use dsa_test.Base.{
  ℕ, ◌+◌, ◌<◌, ◌≡◌, ◌≢◌, ◌↔◌, refl, sym, ap, ◌∙◌, false, none, some, Option-cases, inl, inr, arith,
}
use dsa_test.Retry.{
  Exit, enqcmd_limit, poll_limit, moved, unfinished, failed, op_status, page_fault_nobof, exit_code,
}
use dsa_test.Retry.Wait.{exit_code_iff}
use dsa_test.Retry.Resume.{rounds_end}
use dsa_test.Portal.{Setting, map_wq, main, rounds_of, leave_with, enq_retry_max, poll_retry_max}

leave_with-ended : (x : Exit) (code : ℕ) → x ≢ unfinished → leave_with x code ≡ some code
leave_with-ended enqcmd_limit code h = refl
leave_with-ended poll_limit code h = refl
leave_with-ended moved code h = refl
leave_with-ended unfinished code h = absurd (h refl)
leave_with-ended (failed n) code h = refl

pub rounds_of-ended :
    (m : Setting) (blen fuel j : ℕ)
    → j < fuel
    → op_status (m.attempts j).comp.status ≢ page_fault_nobof
    → rounds_of m blen fuel ≢ unfinished
rounds_of-ended m blen fuel j h quiet =
    let start : 0 + j ≡ j = omega arith in
    rounds_end enq_retry_max poll_retry_max m.attempts fuel 0 j _ h (rw start quiet)

some_zero : (n : ℕ) → (some n ≡ some 0) ↔ (n ≡ 0)
some_zero n = (λ e. cc, λ e. ap some e)

module _ (m : Setting) (blen fuel : ℕ) where
  main-unmapped : map_wq blen m.devices m.start m.opens m.mmap ≡ none → main m blen fuel ≡ some 1
  unfolding main
  main-unmapped e = rw (e, main)

  main-mapped :
      (portal : ℕ)
      → map_wq blen m.devices m.start m.opens m.mmap ≡ some portal
      → rounds_of m blen fuel ≢ unfinished
      → main m blen fuel ≡ some (exit_code (rounds_of m blen fuel) m.differs)
  unfolding main
  main-mapped portal e ended = rw (e, main) (leave_with-ended (rounds_of m blen fuel) _ ended)

-- If some round `j` would report no page fault, `main` ends within `j + 1` rounds, and its exit code
-- is 0 exactly when `map_wq` has mapped a portal, the rounds end with success of the engine, and
-- `memcmp` finds no difference.
pub main-code :
    (m : Setting) (blen fuel j : ℕ)
    → j < fuel
    → op_status (m.attempts j).comp.status ≢ page_fault_nobof
    → (main m blen fuel ≢ none)
      × ((main m blen fuel ≡ some 0) ↔ (
          (map_wq blen m.devices m.start m.opens m.mmap ≢ none)
          × (rounds_of m blen fuel ≡ moved)
          × (m.differs ≡ false)))
main-code m blen fuel j h quiet =
    let ended = rounds_of-ended m blen fuel j h quiet in
    elim (Option-cases (map_wq blen m.devices m.start m.opens m.mmap)) [
      | inl unmapped ↦
          let code = main-unmapped m blen fuel unmapped in
          (λ e. cc, (λ e. absurd cc, λ (mapped, r, d). absurd (mapped unmapped)))
      | inr (portal, mapped) ↦
          let code = main-mapped m blen fuel portal mapped ended in
          let success = exit_code_iff (rounds_of m blen fuel) m.differs in
          (
            λ e. cc,
            (
              λ e. let (r, d) = success.0 ((some_zero _).0 (sym code ∙ e)) in (λ u. cc, r, d),
              λ (u, r, d). code ∙ ap some (success.1 (r, d)),
            ),
          )
    ]
