-- ===== src/Copy/Loop/Polls.antt =====
-- The polling loop of `dsa_copy` of DSA_Kernelspace_Test/1.kernel_test/kernel_test_sgtable.c.
use dsa_test.Base.{
  subst, inl, inr, ℕ, zero, suc, ◌+◌, ◌≤◌, ◌<◌, ◌≡◌, refl, ap, true, false, List, [], ◌∷◌, arith,
  length, ltb, if◌then◌else◌, Bool-cases, inl, inr, ◌∙◌,
}
use dsa_test.Desc.{comp_success}
use dsa_test.Copy.Loop.{Entry, sweep, poll_loop}

-- A record that reads 0 until poll `finish number`, and success from then on.
abbrev pub succeeds_at : (ℕ → ℕ) → ℕ → ℕ → ℕ
succeeds_at finish poll number = if ltb poll (finish number) then 0 else comp_success

-- The entries are yet to be seen, and finish between two polls.
unfoldable pub Pending : (ℕ → ℕ) → ℕ → ℕ → List Entry → Type 0
Pending finish lo hi [] = Unit
Pending finish lo hi (e ∷ es) =
    (e.completion ≡ false)
    × (lo ≤ finish e.number)
    × (finish e.number < hi)
    × Pending finish lo hi es

record Swept (finish : ℕ → ℕ) (poll hi : ℕ) (es : List Entry) : Type 0 where
  pub kept : List Entry
  pub more : ℕ
  pub ran : sweep (succeeds_at finish poll) es ≡ (kept, more)
  pub pending : Pending finish (poll + 1) hi kept
  pub count : more + length kept ≡ length es

sweep-Swept :
    (finish : ℕ → ℕ) (poll hi : ℕ) (es : List Entry)
    → Pending finish poll hi es
    → Swept finish poll hi es
unfolding sweep Pending
sweep-Swept finish poll hi [] h = record {
  kept = [];
  more = 0;
  ran = refl;
  pending = tt;
  count = refl;
}
sweep-Swept finish poll hi (e ∷ es) (fresh, from, below, h) =
    let rest = sweep-Swept finish poll hi es h in
    elim (Bool-cases (ltb poll (finish e.number))) [
      | inl later ↦ record {
        kept = e ∷ rest.kept;
        more = rest.more;
        ran = rw (rest.ran, fresh, later);
        pending = (fresh, ground arith, below, rest.pending);
        count = omega (arith, rest.count);
      }
      | inr now ↦ record {
        kept = rest.kept;
        more = rest.more + 1;
        ran = rw (rest.ran, fresh, now);
        pending = rest.pending;
        count = omega (arith, rest.count);
      }
    ]

poll_loop-suc :
    (status : ℕ → ℕ → ℕ) (n poll nents poll_entry : ℕ) (es kept : List Entry) (more : ℕ)
    → ltb poll_entry nents ≡ true
    → sweep (status poll) es ≡ (kept, more)
    → poll_loop status (suc n) poll nents poll_entry es
      ≡ poll_loop status n (poll + 1) nents (poll_entry + more) kept
unfolding poll_loop
poll_loop-suc status n poll nents poll_entry es kept more going ran =
    rw (going, poll_loop) (rw ran refl)

poll_loop-over :
    (status : ℕ → ℕ → ℕ) (n poll nents poll_entry : ℕ) (es : List Entry)
    → ltb poll_entry nents ≡ false
    → poll_loop status (suc n) poll nents poll_entry es ≡ (es, poll + 1)
unfolding poll_loop
poll_loop-over status n poll nents poll_entry es over = rw (over, poll_loop) refl

length-zero : (es : List Entry) → length es ≡ 0 → es ≡ []
length-zero [] h = refl
length-zero (e ∷ es) h = absurd (omega arith)

pub poll_loop-all :
    (finish : ℕ → ℕ) (n poll nents poll_entry : ℕ) (es : List Entry)
    → Pending finish poll (poll + n) es
    → poll_entry + length es ≡ nents
    → (last : ℕ) × (poll_loop (succeeds_at finish) n poll nents poll_entry es ≡ ([], last))
unfolding poll_loop Pending
poll_loop-all finish zero poll nents poll_entry [] h count = (poll + 1, refl)
poll_loop-all finish zero poll nents poll_entry (e ∷ es) (fresh, from, below, h) count =
    absurd (omega arith)
poll_loop-all finish (suc n) poll nents poll_entry es h count =
    elim (Bool-cases (ltb poll_entry nents)) [
      | inl going ↦
          let s = sweep-Swept finish poll (poll + suc n) es h in
          let e : poll + suc n ≡ poll + 1 + n = omega arith in
          let (last, ran) =
            poll_loop-all finish n (poll + 1) nents (poll_entry + s.more) s.kept
              (subst (λ hi. Pending finish (poll + 1) hi s.kept) e s.pending)
              (omega (arith, s.count)) in
          (
            last,
            poll_loop-suc (succeeds_at finish) n poll nents poll_entry es s.kept s.more going s.ran
                ∙ ran,
          )
      | inr over ↦ (
        poll + 1,
        poll_loop-over (succeeds_at finish) n poll nents poll_entry es over
            ∙ ap (λ left. (left, poll + 1)) (length-zero es (ground arith)),
      )
    ]
