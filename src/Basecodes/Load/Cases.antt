-- ===== src/Basecodes/Load/Cases.antt =====
-- What loading and unloading kernel_test_basecodes.c does.
use dsa_test.Base.{
  ◌<◌, ◌*◌, ◌^◌, ap, ◌∙◌, ◌-◌, ◌≡◌, ◌≢◌, refl, ◌⊎◌, inl, inr, true, false, Option, none, some, [],
  ℤ, pos, neg, is_neg, returns, fault, ◌>>=◌, Bool-cases,
}
use dsa_test.Retry.{unfinished}
use dsa_test.Probe
use dsa_test.Probe.{IdxdWq, init_dsa}
use dsa_test.Load.Stages.{outcome, option}
use dsa_test.Desc.{disabled}
use dsa_test.Basecodes.{
  page_size, page_order, init_region_page, Report, dsa_copy, exit_module_page, enomem,
}
use dsa_test.Basecodes.Region.{FourRuns, runs_of, init_region_page-cases}
use dsa_test.Basecodes.Rounds.{dsa_copy-fault_iff, dsa_copy-ends, dsa_copy-without_channel}
use dsa_test.Basecodes.Load.{Os, Held, run_copy, after_region, my_init, my_exit}

-- The module with its four runs of pages
abbrev pub with_runs : (os : Os) → FourRuns os.alloc_pages os.contiguous → Option IdxdWq → Held
with_runs os f chan = record { pages = runs_of f; chan = chan; copied = none }

run_copy-without_channel :
    (os : Os) (f : FourRuns os.alloc_pages os.contiguous)
    → run_copy os (with_runs os f none) ≡ fault
unfolding run_copy
run_copy-without_channel os f =
    rw
      (dsa_copy-without_channel os.dma_prep_interrupt os.desc os.attempts (os.dma_map_page f.page2)
        (os.dma_map_page f.page1) os.differs)
      refl

-- No descriptor is made for the queue of `c`.
abbrev pub NoDescriptor : Os → IdxdWq → Type 0
NoDescriptor os c =
    ((os.queue c).state ≡ disabled)
    ⊎ ((os.queue c).idxd.max_xfer_bytes < page_size * 2 ^ page_order)
    ⊎ (os.desc ≡ none)

run_copy-cases :
    (os : Os) (f : FourRuns os.alloc_pages os.contiguous) (c : IdxdWq)
    → (NoDescriptor os c × (run_copy os (with_runs os f (some c)) ≡ fault))
      ⊎ ((r : Report) × (r.exit ≢ unfinished)
          × (run_copy os (with_runs os f (some c))
              ≡ returns (record (with_runs os f (some c)) { copied = some r })))
unfolding run_copy
run_copy-cases os f c =
    let dst = os.dma_map_page f.page2 in
    let src = os.dma_map_page f.page1 in
    elim (outcome
      (dsa_copy os.dma_prep_interrupt (some (os.queue c)) os.desc os.attempts dst src os.differs)) [
        | inr faults ↦
            let why =
              dsa_copy-fault_iff os.dma_prep_interrupt (os.queue c) os.desc os.attempts dst src
                os.differs in
            inl ((why.1).0 faults, rw faults refl)
        | inl (r, ran) ↦
            let ended =
              dsa_copy-ends os.dma_prep_interrupt (some (os.queue c)) os.desc os.attempts dst src
                os.differs ran in
            inr (r, ended, rw ran refl)
      ]

-- Why a load reads through NULL.
pub data Faulty (os : Os) : Type 0 where
  region_faults : init_region_page os.alloc_pages os.contiguous ≡ fault → Faulty os
  probe_faults : init_dsa os.get_channel os.devices ≡ fault → Faulty os
  no_channel :
      (r : ℤ)
      → is_neg r ≡ false
      → init_dsa os.get_channel os.devices ≡ returns (r, none)
      → Faulty os
  no_descriptor :
      (r : ℤ) (c : IdxdWq)
      → is_neg r ≡ false
      → init_dsa os.get_channel os.devices ≡ returns (r, some c)
      → NoDescriptor os c
      → Faulty os

-- The load from the result of `init_region_page` on.
RegionCases : (os : Os) → FourRuns os.alloc_pages os.contiguous → Type 0
RegionCases os f =
    let found = init_dsa os.get_channel os.devices in
    (Faulty os × (after_region os (pos 0) (with_runs os f none) ≡ fault))
    ⊎ ((r : ℤ) × (chan : Option IdxdWq) × (found ≡ returns (r, chan))
        × (is_neg r ≡ true)
        × (after_region os (pos 0) (with_runs os f none) ≡ returns (r, with_runs os f chan)))
    ⊎ ((r : ℤ) × (c : IdxdWq) × (report : Report) × (found ≡ returns (r, some c))
        × (is_neg r ≡ false)
        × (report.exit ≢ unfinished)
        × (after_region os (pos 0) (with_runs os f none)
            ≡ returns (pos 0, record (with_runs os f (some c)) { copied = some report })))

after_region-cases : (os : Os) (f : FourRuns os.alloc_pages os.contiguous) → RegionCases os f
unfolding after_region RegionCases
after_region-cases os f = elim (outcome (init_dsa os.get_channel os.devices)) [
  | inr faults ↦ inl (probe_faults faults, rw faults refl)
  | inl ((r, chan), ran) ↦ elim (Bool-cases (is_neg r)) [
    | inl bad ↦ inr (inl (r, chan, ran, bad, rw (ran, ◌>>=◌) (rw bad refl)))
    | inr good ↦ elim (option chan) [
      | inl none_given ↦
          let gave = ran ∙ ap (λ o. returns (r, o)) none_given in
          inl (
            no_channel r good gave,
            rw (gave, ◌>>=◌) (rw (good, run_copy-without_channel os f) refl),
          )
      | inr (c, given) ↦
          let gave = ran ∙ ap (λ o. returns (r, o)) given in
          elim (run_copy-cases os f c) [
            | inl (why, faults) ↦
                inl (no_descriptor r c good gave why, rw (gave, ◌>>=◌) (rw (good, faults) refl))
            | inr (report, ended, copied) ↦
                inr
                  (inr (r, c, report, gave, good, ended, rw (gave, ◌>>=◌) (rw (good, copied) refl)))
          ]
    ]
  ]
]

-- `my_exit` on the four runs
exit_freed :
    (os : Os) (f : FourRuns os.alloc_pages os.contiguous) (c : IdxdWq) (report : Report)
    → exit_module_page (runs_of f) ≡ returns (runs_of f)
    → my_exit (record (with_runs os f (some c)) { copied = some report })
      ≡ returns (runs_of f, record c { client_count = c.client_count - 1 })
unfolding my_exit Probe.my_exit
exit_freed os f c report freed = rw freed refl

after_failed : (os : Os) (s : Held) → after_region os (neg enomem) s ≡ returns (neg enomem, s)
unfolding after_region
after_failed os s = refl

-- What a load comes to, and when.
abbrev pub PageLoadCases : Os → Type 0
PageLoadCases os =
    let found = init_dsa os.get_channel os.devices in
    (Faulty os × (my_init os ≡ fault))
    ⊎ ((f : FourRuns os.alloc_pages os.contiguous) × (os.contiguous f.page4 ≡ false)
        × (my_init os ≡ returns (neg enomem, record { pages = []; chan = none; copied = none })))
    ⊎ ((f : FourRuns os.alloc_pages os.contiguous) × (r : ℤ) × (chan : Option IdxdWq) × (found
          ≡ returns (r, chan))
        × (is_neg r ≡ true)
        × (my_init os ≡ returns (r, with_runs os f chan)))
    ⊎ ((f : FourRuns os.alloc_pages os.contiguous) × (r : ℤ) × (c : IdxdWq) × (report : Report)
        × (found ≡ returns (r, some c))
        × (is_neg r ≡ false)
        × (report.exit ≢ unfinished)
        × (my_init os ≡ returns (pos 0, record (with_runs os f (some c)) { copied = some report }))
        × (my_exit (record (with_runs os f (some c)) { copied = some report })
            ≡ returns (runs_of f, record c { client_count = c.client_count - 1 })))

-- A load faults because `init_region_page` or `init_dsa` does, or because the latter gives no
-- channel and no error, or because no descriptor is made: the queue is disabled, the device's limit
-- is below the length, or the driver has none. Or the fourth run of pages is not contiguous, and the
-- load returns -ENOMEM and holds nothing. Or `init_dsa` returns an error, and so does the load; the
-- four runs of pages stay allocated, though the kernel never calls `my_exit` then. Or `init_dsa`
-- gives a channel and no error, and the load returns 0 with the channel, four runs of pages and a
-- copy whose rounds have ended; `my_exit` then frees each run once and drops one client of the queue.
pub page_load-cases : (os : Os) → PageLoadCases os
unfolding my_init RegionCases
page_load-cases os = elim (init_region_page-cases os.alloc_pages os.contiguous) [
  | inl faults ↦ inl (region_faults faults, rw faults refl)
  | inr (f, inl (broken, ran)) ↦ inr (inl (f, broken, rw ran (after_failed os _)))
  | inr (f, inr (whole, ran, freed)) ↦ elim (after_region-cases os f) [
    | inl (why, faults) ↦ inl (why, rw ran faults)
    | inr (inl (r, chan, gave, bad, on)) ↦ inr (inr (inl (f, r, chan, gave, bad, rw ran on)))
    | inr (inr (r, c, report, gave, good, ended, on)) ↦
        inr (
          inr (inr (f, r, c, report, gave, good, ended, rw ran on, exit_freed os f c report freed)))
  ]
]
