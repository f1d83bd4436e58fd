-- ===== src/Copy/Finish/Mappings.antt =====
-- What `dsa_copy` of DSA_Kernelspace_Test/1.kernel_test/kernel_test_sgtable_batch.c unmaps of its
-- batches.
use dsa_test.Base.{
  times, times-append, ℕ, zero, suc, ◌+◌, ◌≡◌, refl, sym, ap, ◌∙◌, List, [], ◌∷◌, ◌++◌, map, concat,
  ltb, arith, Bool-cases, inl, inr,
}
use dsa_test.Desc.{DescList}
use dsa_test.Copy.Finish.{Entry, numbered, mappings, Pass, visit_entry, sweep_entries, poll_entries}

-- The addresses that are mapped for the entries of a list.
abbrev pub mapped : List DescList → List ℕ
mapped ls = concat (map mappings ls)

abbrev pub items : List Entry → List DescList
items es = map (λ e. e.item) es

pub items-numbered : (i : ℕ) (ls : List DescList) → items (numbered i ls) ≡ ls
items-numbered i [] = refl
items-numbered i (l ∷ ls) = ap (◌∷◌ l) (items-numbered (i + 1) ls)

visit_entry-times :
    (a status n : ℕ) (e : Entry) (p : Pass)
    → times p.unmapped a + times (mapped (items p.kept)) a ≡ n
    → times (visit_entry status e p).unmapped a
        + times (mapped (items (visit_entry status e p).kept)) a
      ≡ times (mappings e.item) a + n
unfolding visit_entry
visit_entry-times a status n e p h = ground (
  arith,
  times-append a (mappings e.item) p.unmapped,
  times-append a (mappings e.item) (mapped (items p.kept)),
)

sweep_entries-times :
    (a : ℕ) (status : ℕ → ℕ) (es : List Entry)
    → times (sweep_entries status es).unmapped a
        + times (mapped (items (sweep_entries status es).kept)) a
      ≡ times (mapped (items es)) a
unfolding sweep_entries
sweep_entries-times a status [] = refl
sweep_entries-times a status (e ∷ es) =
    visit_entry-times a (status e.number) _ e (sweep_entries status es)
      (sweep_entries-times a status es)
    ∙ sym (times-append a (mappings e.item) (mapped (items es)))

-- What the polling has unmapped, and what is mapped for the entries that it leaves.
abbrev pub balance : ℕ → List Entry × List ℕ × ℕ → ℕ
balance a (kept, done, poll) = times done a + times (mapped (items kept)) a

pub poll_entries-times :
    (a : ℕ) (status : ℕ → ℕ → ℕ) (n poll nents poll_entry : ℕ) (es : List Entry) (done : List ℕ)
    → balance a (poll_entries status n poll nents poll_entry es done)
      ≡ times done a + times (mapped (items es)) a
unfolding poll_entries
poll_entries-times a status zero poll nents poll_entry es done = refl
poll_entries-times a status (suc n) poll nents poll_entry es done =
    let p = sweep_entries (status poll) es in
    let step = sweep_entries-times a (status poll) es in
    elim (Bool-cases (ltb poll_entry nents)) [
      | inl going ↦
          rw (going, poll_entries)
            (poll_entries-times a status n (poll + 1) nents (poll_entry + p.counted) p.kept
                (done ++ p.unmapped)
              ∙ omega (arith, step, times-append a done p.unmapped))
      | inr over ↦ rw (over, poll_entries) refl
    ]

-- Whatever the completion records show, at the end of the polling each mapping of an entry has been
-- unmapped once, or its entry is still on the list and it has not been unmapped.
pub poll_entries-unmaps_once :
    (a : ℕ) (status : ℕ → ℕ → ℕ) (n poll nents poll_entry : ℕ) (es : List Entry)
    → balance a (poll_entries status n poll nents poll_entry es []) ≡ times (mapped (items es)) a
poll_entries-unmaps_once a status n poll nents poll_entry es =
    poll_entries-times a status n poll nents poll_entry es [] ∙ omega arith
