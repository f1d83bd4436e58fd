-- ===== src/Copy/Loop/Submitted.antt =====
-- What `dsa_copy` of DSA_Kernelspace_Test/1.kernel_test/kernel_test_sgtable.c submits.
use dsa_test.Base.{
  ◌-◌, ◌*◌, ◌>>=◌, ap, Outcome, fault, ◌==◌, ◌⊎◌, here, there, ℕ, zero, suc, ◌+◌, ◌≡◌, ◌≢◌, refl,
  sym, subst, ◌∙◌, Bool, true, some, List, [], ◌∷◌, ◌++◌, append_assoc, append-nil, arith, ltb,
  returns, Bool-cases, inl, inr, Has, there, Has-append_left,
}
use dsa_test.Desc.{Desc}
use dsa_test.Desc.{Wq, Seg}
use dsa_test.Copy.{chunk_size}
use dsa_test.Copy.Loop.{
  Entry, Kernel, End, finished, fill_entries, submit_all, sweep, poll_loop, comp_success, rounds,
  poll_retry_max,
}

outcome {ℓ} : {A : Type ℓ} (o : Outcome A) → ((a : A) × (o ≡ returns a)) ⊎ (o ≡ fault)
outcome (returns a) = inl (a, refl)
outcome fault = inr refl

append-cons {ℓ} :
    {A : Type ℓ} (xs : List A) (x : A) (ys : List A) → (xs ++ (x ∷ [])) ++ ys ≡ xs ++ (x ∷ ys)
append-cons xs x ys = append_assoc xs (x ∷ []) ys

submit_all-cons :
    (refuses : ℕ → Bool) (es : List Entry) (log log' : List Desc) (e : Entry)
    → submit_all refuses (e ∷ es) log ≡ returns (true, log')
    → (d : Desc) × (e.desc ≡ some d)
      × (submit_all refuses es (log ++ (d ∷ [])) ≡ returns (true, log'))
unfolding submit_all
submit_all-cons refuses es log log' e ran = ground arith

each_cons :
    {x : Entry} {es : List Entry} (d : Desc)
    → x.desc ≡ some d
    → (more : List Desc) → ((e : Entry) → Has e es → (d : Desc) × (e.desc ≡ some d) × Has d more)
    → (e : Entry) → Has e (x ∷ es)
    → (d' : Desc) × (e.desc ≡ some d') × Has d' (d ∷ more)
each_cons d has more each e here = (d, has, here)
each_cons d has more each e (there m) = let (d', has', m') = each e m in (d', has', there m')

submit_all-log :
    (refuses : ℕ → Bool) (es : List Entry) (log log' : List Desc)
    → submit_all refuses es log ≡ returns (true, log')
    → (more : List Desc) × (log' ≡ log ++ more)
      × ((e : Entry) → Has e es → (d : Desc) × (e.desc ≡ some d) × Has d more)
unfolding submit_all
submit_all-log refuses [] log log' ran =
    ([], (let e : log ≡ log' = ground arith in sym e ∙ sym (append-nil log)), λ e m. elim m [ ])
submit_all-log refuses (x ∷ es) log log' ran =
    let (d, has, rest) = submit_all-cons refuses es log log' x ran in
    let (more, grown, each) = submit_all-log refuses es (log ++ (d ∷ [])) log' rest in
    (d ∷ more, grown ∙ append-cons log d more, each_cons d has more each)

-- What a pass makes of the first entry.
sweep-cases :
    (status : ℕ → ℕ) (x : Entry) (es : List Entry)
    → ((status x.number ≡ comp_success) × ((sweep status (x ∷ es)).0 ≡ (sweep status es).0))
      ⊎ ((y : Entry) × (y.desc ≡ x.desc)
          × (y.number ≡ x.number)
          × ((sweep status (x ∷ es)).0 ≡ y ∷ (sweep status es).0))
unfolding sweep
sweep-cases status x es = elim (Bool-cases x.completion) [
  | inl old ↦ inr (x, refl, refl, rw old refl)
  | inr fresh ↦ elim (Bool-cases (status x.number == comp_success)) [
    | inl done ↦ inl (ground arith, rw (fresh, done) refl)
    | inr not_done ↦ elim (Bool-cases (ltb comp_success (status x.number))) [
      | inl failed ↦
          inr (record x { completion = true }, refl, refl, rw (fresh, not_done, failed) refl)
      | inr waiting ↦ inr (x, refl, refl, rw (fresh, not_done, waiting) refl)
    ]
  ]
]

sweep-keeps :
    (status : ℕ → ℕ) (es : List Entry) (e : Entry)
    → Has e es
    → status e.number ≢ comp_success
    → (kept : Entry) × Has kept ((sweep status es).0)
      × (kept.desc ≡ e.desc)
      × (kept.number ≡ e.number)
sweep-keeps status [] e m h = elim m [ ]
sweep-keeps status (x ∷ es) e here h = elim (sweep-cases status x es) [
  | inl (done, same) ↦ absurd (h done)
  | inr (y, yd, yn, shape) ↦ (y, subst (Has y) (sym shape) here, yd, yn)
]
sweep-keeps status (x ∷ es) e (there m) h =
    let (k, mk, dk, nk) = sweep-keeps status es e m h in
    elim (sweep-cases status x es) [
      | inl (done, same) ↦ (k, subst (Has k) (sym same) mk, dk, nk)
      | inr (y, yd, yn, shape) ↦ (k, subst (Has k) (sym shape) (there mk), dk, nk)
    ]

-- An entry whose record never shows success stays in the list.
poll_loop-keeps :
    (status : ℕ → ℕ → ℕ) (n poll nents poll_entry : ℕ) (es : List Entry) (e : Entry)
    → Has e es
    → ((poll : ℕ) → status poll e.number ≢ comp_success)
    → (kept : Entry) × Has kept ((poll_loop status n poll nents poll_entry es).0)
      × (kept.desc ≡ e.desc)
unfolding poll_loop
poll_loop-keeps status zero poll nents poll_entry es e m h = (e, m, refl)
poll_loop-keeps status (suc n) poll nents poll_entry es e m h =
    elim (Bool-cases (ltb poll_entry nents)) [
      | inl going ↦
          let (k, mk, dk, nk) = sweep-keeps (status poll) es e m (h poll) in
          let (k', mk', dk') =
            poll_loop-keeps status n (poll + 1) nents (poll_entry + (sweep (status poll) es).1)
              ((sweep (status poll) es).0) k mk (λ p. rw nk (h p)) in
          rw (going, poll_loop) (k', mk', dk' ∙ dk)
      | inr over ↦ rw (over, poll_loop) (e, m, refl)
    ]

-- A round that is not the last: what it has filled in, submitted and polled before the next one.
record Round (os : Kernel) (wq : Wq) (total n loop : ℕ) (es : List Entry) (log : List Desc)
    (end : End) : Type 0 where
  nents : ℕ
  new : List Entry
  dsts : List Seg
  srcs : List Seg
  log' : List Desc
  poll : ℕ
  sent : submit_all os.refuses (es ++ new) log ≡ returns (true, log')
  next :
      rounds os wq total n
        (loop + 1)
        dsts
        srcs
        (poll_loop (os.status loop) poll_retry_max 0 nents 0 (es ++ new)).0
        log'
        poll
      ≡ returns end

rounds-Round :
    (os : Kernel) (wq : Wq) (total n loop : ℕ) (dsts srcs : List Seg) (es : List Entry)
    (log : List Desc) (poll : ℕ) (l : List Desc) (left : List Entry) (last : ℕ)
    → rounds os wq total (suc n) loop dsts srcs es log poll ≡ returns (finished l left last)
    → Round os wq total n loop es log (finished l left last)
unfolding rounds
rounds-Round os wq total n loop dsts srcs es log poll l left last ran =
    let nents = chunk_size wq.num_descs (total - loop * wq.num_descs) in
    elim (outcome (fill_entries os wq nents (loop * wq.num_descs) dsts srcs)) [
      | inr faults ↦ let none_ran = rw faults at ran in absurd cc
      | inl ((new, dsts', srcs'), filled) ↦ elim (outcome (submit_all os.refuses (es ++ new) log)) [
        | inr faults ↦ let none_ran = rw (filled, ◌>>=◌, faults) at ran in absurd cc
        | inl ((all, log'), sent) ↦ elim (Bool-cases all) [
          | inr refused ↦ let ends = rw (filled, ◌>>=◌, sent, refused) at ran in absurd cc
          | inl every ↦ record {
            nents = nents;
            new = new;
            dsts = dsts';
            srcs = srcs';
            log' = log';
            poll = _;
            sent = sent ∙ ap (λ b. returns (b, log')) every;
            next = rw (filled, ◌>>=◌, sent, every) at ran;
          }
        ]
      ]
    ]

some_inj : {d d' : Desc} → some d ≡ some d' → d ≡ d'
some_inj e = cc

-- The log only grows.
rounds-log :
    (os : Kernel) (wq : Wq) (total n loop : ℕ) (dsts srcs : List Seg) (es : List Entry)
    (log : List Desc) (poll : ℕ) (l : List Desc) (left : List Entry) (last : ℕ)
    → rounds os wq total n loop dsts srcs es log poll ≡ returns (finished l left last)
    → (more : List Desc) × (l ≡ log ++ more)
unfolding rounds
rounds-log os wq total zero loop dsts srcs es log poll l left last ran =
    let same : log ≡ l = cc in ([], sym same ∙ sym (append-nil log))
rounds-log os wq total (suc n) loop dsts srcs es log poll l left last ran =
    let r = rounds-Round os wq total n loop dsts srcs es log poll l left last ran in
    let (now, grown, each) = submit_all-log os.refuses (es ++ r.new) log r.log' r.sent in
    let (more, later) =
      rounds-log os wq total n (loop + 1) r.dsts r.srcs _ r.log' r.poll l left last r.next in
    (now ++ more, later ∙ ap (λ k. k ++ more) grown ∙ append_assoc log now more)

-- When the rounds end with none refused, and the record of an entry on the list never shows success,
-- because it shows an error or nothing, then the descriptor of the entry is submitted in this round
-- and once more in the next.
pub failed_submitted_again :
    (os : Kernel) (wq : Wq) (total n loop : ℕ) (dsts srcs : List Seg) (es : List Entry)
    (log : List Desc) (poll : ℕ) (l : List Desc) (left : List Entry) (last : ℕ)
    → rounds os wq total (suc (suc n)) loop dsts srcs es log poll ≡ returns (finished l left last)
    → (e : Entry) → Has e es
    → ((poll : ℕ) → os.status loop poll e.number ≢ comp_success)
    → (d : Desc) × (this next later : List Desc) × (e.desc ≡ some d)
      × (l ≡ log ++ (this ++ (next ++ later)))
      × Has d this
      × Has d next
failed_submitted_again os wq total n loop dsts srcs es log poll l left last ran e m h =
    let r = rounds-Round os wq total (suc n) loop dsts srcs es log poll l left last ran in
    let (this, grown, each) = submit_all-log os.refuses (es ++ r.new) log r.log' r.sent in
    let (d, has, md) = each e (Has-append_left r.new m) in
    let kept = (poll_loop (os.status loop) poll_retry_max 0 r.nents 0 (es ++ r.new)).0 in
    let (k, mk, dk) =
      poll_loop-keeps (os.status loop) poll_retry_max 0 r.nents 0 (es ++ r.new) e
        (Has-append_left r.new m) h in
    let q =
      rounds-Round os wq total n (loop + 1) r.dsts r.srcs kept r.log' r.poll l left last r.next in
    let (next, grown', each') = submit_all-log os.refuses (kept ++ q.new) r.log' q.log' q.sent in
    let (d', has', md') = each' k (Has-append_left q.new mk) in
    let (later, end) =
      rounds-log os wq total n (loop + 1 + 1) q.dsts q.srcs _ q.log' q.poll l left last q.next in
    let same : d' ≡ d = some_inj (sym has' ∙ dk ∙ has) in
    (
      d,
      this,
      next,
      later,
      has,
      end
          ∙ ap (λ k. k ++ later) (grown' ∙ ap (λ k. k ++ next) grown)
          ∙ append_assoc (log ++ this) next later
          ∙ append_assoc log this (next ++ later),
      md,
      subst (λ x. Has x next) same md',
    )
