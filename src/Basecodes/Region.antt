-- ===== src/Basecodes/Region.antt =====
-- What `init_region_page` of kernel_test_basecodes.c does with its four runs of pages.
use dsa_test.Base.{
  ℕ, zero, suc, ◌≡◌, refl, Bool, true, false, Option, none, some, List, [], ◌∷◌, arith, pos, neg,
  returns, fault, ◌<◌, ◌⊎◌, inl, inr, Option-cases, Bool-cases,
}
use dsa_test.Basecodes.{enomem, alloc_runs, init_region_page, exit_module_page}

-- When all four calls give a contiguous run, `init_region_page` returns 0, keeps the four in order and
-- frees none, and `exit_module_page` then frees these four.
pub init_region_page-success :
    (alloc : ℕ → Option ℕ) (contiguous : ℕ → Bool) (p q r s : ℕ)
    → alloc 0 ≡ some p
    → alloc 1 ≡ some q
    → alloc 2 ≡ some r
    → alloc 3 ≡ some s
    → contiguous p ≡ true
    → contiguous q ≡ true
    → contiguous r ≡ true
    → contiguous s ≡ true
    → (init_region_page alloc contiguous ≡ returns (pos 0, p ∷ q ∷ r ∷ s ∷ [], []))
      × (exit_module_page (p ∷ q ∷ r ∷ s ∷ []) ≡ returns (p ∷ q ∷ r ∷ s ∷ []))
unfolding init_region_page exit_module_page
init_region_page-success alloc contiguous p q r s a b c d u v w x = (ground arith, refl)

-- When one of the four calls returns NULL, or would, if an earlier one did not end the function, then
-- the clean-up frees a NULL page: -ENOMEM is not returned.
pub init_region_page-null :
    (alloc : ℕ → Option ℕ) (contiguous : ℕ → Bool) (i : ℕ)
    → i < 4
    → alloc i ≡ none
    → init_region_page alloc contiguous ≡ fault
unfolding init_region_page
init_region_page-null alloc contiguous zero h e = rw (e, alloc_runs)
init_region_page-null alloc contiguous (suc zero) h e = ground arith
init_region_page-null alloc contiguous (suc (suc zero)) h e = ground arith
init_region_page-null alloc contiguous (suc (suc (suc zero))) h e = ground arith
init_region_page-null alloc contiguous (suc (suc (suc (suc i)))) h e = absurd (omega arith)

-- Four runs of pages, of which the first three are contiguous.
pub record FourRuns (alloc : ℕ → Option ℕ) (contiguous : ℕ → Bool) : Type 0 where
  pub page1 : ℕ
  pub page2 : ℕ
  pub page3 : ℕ
  pub page4 : ℕ
  pub given1 : alloc 0 ≡ some page1
  pub given2 : alloc 1 ≡ some page2
  pub given3 : alloc 2 ≡ some page3
  pub given4 : alloc 3 ≡ some page4
  pub whole1 : contiguous page1 ≡ true
  pub whole2 : contiguous page2 ≡ true
  pub whole3 : contiguous page3 ≡ true

abbrev pub runs_of :
    {alloc : ℕ → Option ℕ} {contiguous : ℕ → Bool} → FourRuns alloc contiguous → List ℕ
runs_of r = r.page1 ∷ r.page2 ∷ r.page3 ∷ r.page4 ∷ []

module _ (alloc : ℕ → Option ℕ) (contiguous : ℕ → Bool) where
  -- The three ways in which `init_region_page` ends
  abbrev pub RunsCases : Type 0
  RunsCases =
      (init_region_page alloc contiguous ≡ fault)
      ⊎ ((f : FourRuns alloc contiguous) × (((contiguous f.page4 ≡ false)
              × (init_region_page alloc contiguous ≡ returns (neg enomem, [], runs_of f)))
            ⊎ ((contiguous f.page4 ≡ true)
                × (init_region_page alloc contiguous ≡ returns (pos 0, runs_of f, []))
                × (exit_module_page (runs_of f) ≡ returns (runs_of f)))))

  broken_run :
      (p q r s : ℕ)
      → alloc 0 ≡ some p
      → alloc 1 ≡ some q
      → alloc 2 ≡ some r
      → (contiguous p ≡ false) ⊎ (contiguous q ≡ false) ⊎ (contiguous r ≡ false)
      → init_region_page alloc contiguous ≡ fault
  unfolding init_region_page
  broken_run p q r s a b c broken = ground arith

  last_broken :
      (f : FourRuns alloc contiguous)
      → contiguous f.page4 ≡ false
      → init_region_page alloc contiguous ≡ returns (neg enomem, [], runs_of f)
  unfolding init_region_page
  last_broken f broken =
      let a = f.given1 in
      let b = f.given2 in
      let c = f.given3 in
      let d = f.given4 in let x = f.whole1 in let y = f.whole2 in let z = f.whole3 in ground arith

  given_runs :
      (p q r s : ℕ)
      → alloc 0 ≡ some p
      → alloc 1 ≡ some q
      → alloc 2 ≡ some r
      → alloc 3 ≡ some s
      → RunsCases
  given_runs p q r s a b c d = elim (Bool-cases (contiguous p)) [
    | inr x ↦ inl (broken_run p q r s a b c (inl x))
    | inl x ↦ elim (Bool-cases (contiguous q)) [
      | inr y ↦ inl (broken_run p q r s a b c (inr (inl y)))
      | inl y ↦ elim (Bool-cases (contiguous r)) [
        | inr z ↦ inl (broken_run p q r s a b c (inr (inr z)))
        | inl z ↦ inr (
            let f : FourRuns alloc contiguous = record {
              page1 = p;
              page2 = q;
              page3 = r;
              page4 = s;
              given1 = a;
              given2 = b;
              given3 = c;
              given4 = d;
              whole1 = x;
              whole2 = y;
              whole3 = z;
            } in
            (
              f,
              elim (Bool-cases (contiguous s)) [
                | inr broken ↦ inl (broken, last_broken f broken)
                | inl whole ↦
                    let (kept, freed) =
                      init_region_page-success alloc contiguous p q r s a b c d x y z whole in
                    inr (whole, kept, freed)
              ],
            ))
      ]
    ]
  ]

  -- `init_region_page` faults, unless all four calls give a run of pages and the first three runs are
  -- contiguous. If the fourth is too, it returns 0 and keeps the four, and `exit_module_page` then
  -- frees each of them once; if not, it frees them itself and returns -ENOMEM.
  pub init_region_page-cases : RunsCases
  init_region_page-cases = elim (Option-cases (alloc 0)) [
    | inl a ↦ inl (init_region_page-null alloc contiguous 0 (omega arith) a)
    | inr (p, a) ↦ elim (Option-cases (alloc 1)) [
      | inl b ↦ inl (init_region_page-null alloc contiguous 1 (omega arith) b)
      | inr (q, b) ↦ elim (Option-cases (alloc 2)) [
        | inl c ↦ inl (init_region_page-null alloc contiguous 2 (omega arith) c)
        | inr (r, c) ↦ elim (Option-cases (alloc 3)) [
          | inl d ↦ inl (init_region_page-null alloc contiguous 3 (omega arith) d)
          | inr (s, d) ↦ given_runs p q r s a b c d
        ]
      ]
    ]
  ]
