-- ===== src/Basecodes/Success.antt =====
-- That `dsa_copy` of kernel_test_basecodes.c comes to its end with success, page faults or not.
use dsa_test.Base.{ℕ, zero, suc, ◌+◌, ◌≤◌, ◌<◌, ◌≡◌, ◌∙◌, refl, false, leb, arith}
use dsa_test.Desc.{comp_success}
use dsa_test.Retry.{Comp, Attempt, moved, op_status, page_fault_nobof, wait_while, resume}
use dsa_test.Retry.Wait.{wait_while-le}
use dsa_test.Basecodes.{Retrying, leave, again, judge, round, rounds}

-- Round `k` and the `j` after it report a page fault, and the next one success; each record shows up
-- at test `p` at the latest.
pub record Succeeds (attempts : ℕ → Attempt) (p k j : ℕ) : Type 0 where
  pub quiet : (i n : ℕ) → p ≤ n → (attempts (k + i)).busy n ≡ false
  pub faults : (i : ℕ) → i < j → op_status (attempts (k + i)).comp.status ≡ page_fault_nobof
  pub success : (attempts (k + j)).comp.status ≡ comp_success

Succeeds-next :
    (attempts : ℕ → Attempt) (p k j : ℕ)
    → Succeeds attempts p k (suc j)
    → Succeeds attempts p (k + 1) j
Succeeds-next attempts p k j s =
    let next = λ (i : ℕ). let e : k + suc i ≡ k + 1 + i = omega arith in e in
    record {
      quiet = λ i. rw (next i) at (s.quiet (suc i));
      faults = λ i h. rw (next i) at (s.faults (suc i) (omega arith));
      success = rw (next j) at s.success;
    }

judge-success : (c : Comp) (r : Retrying) → c.status ≡ comp_success → judge c r ≡ leave moved r
unfolding judge
judge-success c r h = ground arith

judge-fault :
    (c : Comp) (r : Retrying)
    → op_status c.status ≡ page_fault_nobof
    → judge c r ≡ again (record r { faults = r.faults + 1; hw = resume r.hw c })
unfolding judge
judge-fault c r h = ground arith

module _ (poll_max fault_max p : ℕ) (within : p < poll_max) where
  round-judge :
      (a : Attempt) (r : Retrying)
      → ((n : ℕ) → p ≤ n → a.busy n ≡ false)
      → r.poll ≤ p
      → r.faults < fault_max
      → (n : ℕ) × (n ≤ p) × (round poll_max fault_max a r ≡ judge a.comp (record r { poll = n }))
  unfolding round
  round-judge a r quiet h f =
      let n = wait_while a.busy poll_max (suc poll_max) r.poll in
      let le : n ≤ p =
        wait_while-le a.busy poll_max p (suc poll_max) r.poll quiet (omega arith) h in
      let polls : leb poll_max n ≡ false = ground arith in
      let rest : leb fault_max r.faults ≡ false = ground arith in (n, le, rw (polls, rest) refl)

  pub rounds-success :
      (attempts : ℕ → Attempt) (fuel k j : ℕ) (r : Retrying)
      → Succeeds attempts p k j
      → r.poll ≤ p
      → r.faults + j < fault_max
      → j < fuel
      → (rounds poll_max fault_max attempts fuel k r).0 ≡ moved
  unfolding rounds
  rounds-success attempts zero k j r s h f u = absurd (omega arith)
  rounds-success attempts (suc fuel) k zero r s h f u =
      let start : k + 0 ≡ k = omega arith in
      let quiet : (n : ℕ) → p ≤ n → (attempts k).busy n ≡ false = rw start at (s.quiet 0) in
      let done : (attempts k).comp.status ≡ comp_success = rw start at s.success in
      let (n, le, ran) = round-judge (attempts k) r quiet h (omega arith) in
      let left = ran ∙ judge-success (attempts k).comp (record r { poll = n }) done in
      rw (left, rounds) refl
  rounds-success attempts (suc fuel) k (suc j) r s h f u =
      let start : k + 0 ≡ k = omega arith in
      let quiet : (n : ℕ) → p ≤ n → (attempts k).busy n ≡ false = rw start at (s.quiet 0) in
      let faulted : op_status (attempts k).comp.status ≡ page_fault_nobof =
        rw start at (s.faults 0 (omega arith)) in
      let (n, le, ran) = round-judge (attempts k) r quiet h (omega arith) in
      let on = ran ∙ judge-fault (attempts k).comp (record r { poll = n }) faulted in
      rw (on, rounds)
        (rounds-success attempts fuel (k + 1) j _ (Succeeds-next attempts p k j s) le (omega arith)
          (omega arith))
