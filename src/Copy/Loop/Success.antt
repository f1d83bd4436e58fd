-- ===== src/Copy/Loop/Success.antt =====
-- A run of `dsa_copy` of DSA_Kernelspace_Test/1.kernel_test/kernel_test_sgtable.c in which every
-- descriptor succeeds.
use dsa_test.Base.{
  ℕ, zero, suc, ◌+◌, ◌*◌, ◌-◌, ◌≤◌, ◌<◌, ◌≡◌, refl, ap, ◌∙◌, ap₂, min, true, false, ◌&&◌, some,
  List, [], ◌∷◌, ◌++◌, map, append_assoc, append-nil, map-append, arith, length, take, drop, ltb,
  returns, length-drop, ◌^◌,
}
use dsa_test.Desc.{Desc, Wq, Seg, enabled, submit_flags}
use dsa_test.Desc.Flags.{submit_memcpy-given}
use dsa_test.Desc.Batch.{transfer, shortest, pairwise-append, pairwise-take}
use dsa_test.Copy.Cuts.{common, common-fits, div_up-enough, chunk_size-add}
use dsa_test.Copy.{chunk_size, div_up}
use dsa_test.Copy.Loop.{
  Entry, Kernel, finished, new_entry, fill_entries, submit_all, poll_loop, rounds, dsa_copy,
  poll_retry_max,
}
use dsa_test.Copy.Loop.Polls.{succeeds_at, Pending, poll_loop-all}

-- Every entry is within a length.
abbrev pub Fit : ℕ → List Seg → Type 0
Fit max [] = Unit
Fit max (s ∷ ss) = (s.dma_len ≤ max) × Fit max ss

Fit-drop : (max n : ℕ) (ss : List Seg) → Fit max ss → Fit max (drop n ss)
Fit-drop max zero ss h = h
Fit-drop max (suc n) [] h = tt
Fit-drop max (suc n) (s ∷ ss) (now, h) = Fit-drop max n ss h

-- What a round makes and submits.
record Made (os : Kernel) (wq : Wq) (finish : ℕ → ℕ) (n i : ℕ) (dsts srcs : List Seg) : Type 0 where
  pub entries : List Entry
  pub descs : List Desc
  pub ran : fill_entries os wq n i dsts srcs ≡ returns (entries, drop n dsts, drop n srcs)
  pub sent : (log : List Desc) → submit_all os.refuses entries log ≡ returns (true, log ++ descs)
  pub pending : Pending finish 0 poll_retry_max entries
  pub count : length entries ≡ n
  pub copies : map (λ d. transfer d.hw) descs ≡ shortest (take n dsts) (take n srcs)

module _ (os : Kernel) (wq : Wq) (finish : ℕ → ℕ) (on : wq.state ≡ enabled)
    (small : wq.idxd.max_xfer_bytes < 2 ^ 32) (given : (i : ℕ) → (d : Desc) × (os.alloc i ≡ some d))
    (willing : (k : ℕ) → os.refuses k ≡ false) (soon : (i : ℕ) → finish i < poll_retry_max) where
  submit_one :
      (e : Entry) (d : Desc) (es : List Entry) (ds log : List Desc)
      → e.desc ≡ some d
      → submit_all os.refuses es (log ++ (d ∷ [])) ≡ returns (true, (log ++ (d ∷ [])) ++ ds)
      → submit_all os.refuses (e ∷ es) log ≡ returns (true, log ++ (d ∷ ds))
  unfolding submit_all
  submit_one e d es ds log has rest =
      rw (has, willing (length log))
        (rest ∙ ap (λ l. returns (true, l)) (append_assoc log (d ∷ []) ds))

  fill_entries-Made :
      (n i : ℕ) (dsts srcs : List Seg)
      → n ≤ length dsts
      → n ≤ length srcs
      → Fit wq.idxd.max_xfer_bytes dsts
      → Made os wq finish n i dsts srcs
  unfolding fill_entries submit_all Pending
  fill_entries-Made zero i dsts srcs hd hs fit = record {
    entries = [];
    descs = [];
    ran = refl;
    sent = λ log. rw (append-nil log) refl;
    pending = tt;
    count = refl;
    copies = refl;
  }
  fill_entries-Made (suc n) i [] srcs hd hs fit = absurd (omega arith)
  fill_entries-Made (suc n) i (d ∷ dsts) [] hd hs fit = absurd (omega arith)
  fill_entries-Made (suc n) i (d ∷ dsts) (s ∷ srcs) hd hs (fits, fit) =
      let rest = fill_entries-Made n (i + 1) dsts srcs (omega arith) (omega arith) fit in
      let (g, gave) = given i in
      let (made, has, copy) =
        submit_memcpy-given os.dma_prep_interrupt wq (os.alloc i) d.dma_address s.dma_address
          (min s.dma_len d.dma_len) submit_flags on small gave (omega arith) in
      record {
        entries = new_entry os wq i d s ∷ rest.entries;
        descs = made ∷ rest.descs;
        ran = rw rest.ran refl;
        sent = λ log.
            submit_one (new_entry os wq i d s) made rest.entries rest.descs log has (rest.sent _);
        pending = (refl, omega arith, soon i, rest.pending);
        count = ap suc rest.count;
        copies = ap₂ ◌∷◌ copy rest.copies;
      }

  rounds-cons :
      (total n loop : ℕ) (dsts srcs : List Seg) (log : List Desc) (poll last : ℕ)
      → (let nents = chunk_size wq.num_descs (total - loop * wq.num_descs) in
          (m : Made os wq finish nents (loop * wq.num_descs) dsts srcs)
          → poll_loop (os.status loop) poll_retry_max 0 nents 0 m.entries ≡ ([], last)
          → rounds os wq total (suc n) loop dsts srcs [] log poll
            ≡ rounds os wq total n
                (loop + 1)
                (drop nents dsts)
                (drop nents srcs)
                []
                (log ++ m.descs)
                last)
  unfolding rounds
  rounds-cons total n loop dsts srcs log poll last m polled =
      rw m.ran (rw (m.sent log) (rw polled refl))

  module _ (shown : (loop : ℕ) → os.status loop ≡ succeeds_at finish) where
    rounds-all :
        (total n loop : ℕ) (dsts srcs : List Seg) (log : List Desc) (poll : ℕ)
        → total - loop * wq.num_descs ≤ n * wq.num_descs
        → total - loop * wq.num_descs ≤ length dsts
        → total - loop * wq.num_descs ≤ length srcs
        → Fit wq.idxd.max_xfer_bytes dsts
        → (more : List Desc) × (last : ℕ) × (rounds os wq total n loop dsts srcs [] log poll
            ≡ returns (finished (log ++ more) [] last))
          × (map (λ d. transfer d.hw) more
              ≡ shortest
                  (take (total - loop * wq.num_descs) dsts)
                  (take (total - loop * wq.num_descs) srcs))
    unfolding rounds
    rounds-all total zero loop dsts srcs log poll h hd hs fit =
        let none_left : total - loop * wq.num_descs ≡ 0 = omega arith in
        ([], poll, rw (append-nil log) refl, rw none_left refl)
    rounds-all total (suc n) loop dsts srcs log poll h hd hs fit =
        let now = chunk_size wq.num_descs (total - loop * wq.num_descs) in
        let later = total - (loop + 1) * wq.num_descs in
        let split = chunk_size-add wq.num_descs total loop in
        let made =
          fill_entries-Made now (loop * wq.num_descs) dsts srcs (omega (arith, split))
            (omega (arith, split)) fit in
        let (last, polled) =
          poll_loop-all finish poll_retry_max 0 now 0 made.entries made.pending
            (omega (arith, made.count)) in
        let (more, end, ran, copies) =
          rounds-all total n (loop + 1) (drop now dsts) (drop now srcs) (log ++ made.descs) last
            (ground arith) (omega (arith, split, length-drop now dsts))
            (omega (arith, split, length-drop now srcs))
            (Fit-drop wq.idxd.max_xfer_bytes now dsts fit) in
        (
          made.descs ++ more,
          end,
          rounds-cons total n loop dsts srcs log poll last made (rw (shown loop) polled)
              ∙ ran
              ∙ ap (λ l. returns (finished l [] end)) (append_assoc log made.descs more),
          map-append (λ d. transfer d.hw) made.descs more
              ∙ ap₂ ◌++◌ made.copies copies
              ∙ pairwise-append (λ d s. min s.dma_len d.dma_len) now later dsts srcs
              ∙ ap (λ k. shortest (take k dsts) (take k srcs)) split,
        )

    -- When the queue is enabled, the driver has a descriptor for every entry, refuses none, and every
    -- record shows success before the polls of its round run out, then tables of more than one entry,
    -- within the device's limit, are copied to the end: the descriptors submitted, over all rounds,
    -- ask for each pair of entries once and in order, and none is left on the list.
    pub dsa_copy-success :
        (srcs dsts : List Seg)
        → 1 < length srcs
        → 1 < length dsts
        → 0 < wq.num_descs
        → Fit wq.idxd.max_xfer_bytes dsts
        → (log : List Desc) × (poll : ℕ) × (dsa_copy os wq srcs dsts
            ≡ returns (finished log [] poll))
          × (map (λ d. transfer d.hw) log ≡ shortest dsts srcs)
    unfolding dsa_copy
    dsa_copy-success srcs dsts h1 h2 sized fit =
        let total = common (length srcs) (length dsts) in
        let all : total - 0 * wq.num_descs ≡ total = omega arith in
        let (fits1, fits2) = common-fits (length srcs) (length dsts) in
        let (log, poll, ran, copies) =
          rounds-all total (div_up total wq.num_descs) 0 dsts srcs [] 0
            (rw all (div_up-enough total wq.num_descs sized)) (rw all fits2) (rw all fits1) fit in
        let more : (ltb 1 (length srcs) && ltb 1 (length dsts)) ≡ true = ground arith in
        (
          log,
          poll,
          rw more ran,
          rw all at copies
              ∙ pairwise-take (λ d s. min s.dma_len d.dma_len) total dsts srcs (omega arith),
        )
