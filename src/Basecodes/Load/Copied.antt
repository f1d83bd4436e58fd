-- ===== src/Basecodes/Load/Copied.antt =====
-- That a load of kernel_test_basecodes.c copies its pages.
use dsa_test.Base.{
  ℕ, suc, ◌+◌, ◌*◌, ◌^◌, ◌≤◌, ◌<◌, ◌≡◌, ◌∙◌, refl, true, some, List, pos, returns, arith, get_elem?,
  length,
}
use dsa_test.Desc.{Desc, Wq, enabled}
use dsa_test.Engine.{Memory}
use dsa_test.Retry.{moved}
use dsa_test.Retry.Resume.{completed}
use dsa_test.Retry.Copied.{Effects}
use dsa_test.Probe.{IdxdWq, init_dsa, dsa_list, dsa_num, wq_num}
use dsa_test.Probe.Channel.{exit_drops_client}
use dsa_test.Basecodes.{Report, dsa_copy, page_size, page_order, poll_retry_max, fault_retry_max}
use dsa_test.Basecodes.Region.{FourRuns, init_region_page-success}
use dsa_test.Basecodes.Copied.{
  Runs, start, submitted, memory_of, dsa_copy-returns, memory_of-copied,
}
use dsa_test.Basecodes.Success.{Succeeds, rounds-success}
use dsa_test.Basecodes.Load.{Os, Held, run_copy, after_region, my_init}
use dsa_test.Basecodes.Load.Cases.{with_runs}

copy_ran :
    (os : Os) (f : FourRuns os.alloc_pages os.contiguous) (c : IdxdWq) (q : Wq) (g : Desc)
    {r : Report}
    → os.queue c ≡ q
    → os.desc ≡ some g
    → dsa_copy os.dma_prep_interrupt
        (some q)
        (some g)
        os.attempts
        (os.dma_map_page f.page2)
        (os.dma_map_page f.page1)
        os.differs
      ≡ returns r
    → run_copy os (with_runs os f (some c))
      ≡ returns (record (with_runs os f (some c)) { copied = some r })
unfolding run_copy
copy_ran os f c q g queue desc ran = rw (queue, desc, ran) refl

loaded :
    (os : Os) (f : FourRuns os.alloc_pages os.contiguous) (c : IdxdWq) {s : Held}
    → os.contiguous f.page4 ≡ true
    → init_dsa os.get_channel os.devices ≡ returns (pos 0, some c)
    → run_copy os (with_runs os f (some c)) ≡ returns s
    → my_init os ≡ returns (pos 0, s)
unfolding my_init after_region
loaded os f c whole found copied =
    let (kept, freed) =
      init_region_page-success os.alloc_pages os.contiguous f.page1 f.page2 f.page3 f.page4 f.given1
        f.given2 f.given3 f.given4 f.whole1 f.whole2 f.whole3 whole in
    rw (kept, found) (rw copied refl)

-- Four runs of pages are given and contiguous, the second queue of the third device is an enabled
-- dmaengine queue whose channel is given, its device takes the length, and the driver has a
-- descriptor; the two runs of the copy are apart; `j` page faults, fewer than the limit, claim no
-- more bytes than are asked for, and then the engine reports success, each record at the latest at
-- test `p` of its round, which is within the limit. Then `my_init` returns 0, the copy has ended
-- with success, and the second run of pages holds what the first held.
pub page_load-copies :
    (os : Os) (f : FourRuns os.alloc_pages os.contiguous) (wqs : List IdxdWq) (wq : IdxdWq) (q : Wq)
    (g : Desc) (e : Effects os.attempts) (m : Memory) (p j : ℕ)
    → os.contiguous f.page4 ≡ true
    → dsa_list ≤ length os.devices
    → get_elem? os.devices dsa_num ≡ some (some wqs)
    → get_elem? wqs wq_num ≡ some wq
    → wq.enabled ≡ true
    → wq.dmaengine ≡ true
    → ((w : IdxdWq) → os.get_channel w ≡ true)
    → ((w : IdxdWq) → os.queue w ≡ q)
    → q.state ≡ enabled
    → q.idxd.max_xfer_bytes < 2 ^ 32
    → page_size * 2 ^ page_order ≤ q.idxd.max_xfer_bytes
    → os.desc ≡ some g
    → Runs (os.dma_map_page f.page2) (os.dma_map_page f.page1)
    → ((i : ℕ) → completed os.attempts 0 i ≤ page_size * 2 ^ page_order)
    → Succeeds os.attempts p 0 j
    → p < poll_retry_max
    → j < fault_retry_max
    → (s : Held) × (r : Report) × (d : Desc) × (my_init os ≡ returns (pos 0, s))
      × (s.copied ≡ some r)
      × (r.exit ≡ moved)
      × (submitted os.dma_prep_interrupt q
            (some g)
            (os.dma_map_page f.page2)
            (os.dma_map_page f.page1)
          ≡ some d)
      × ((i : ℕ)
          → i < page_size * 2 ^ page_order
          → memory_of e d m (os.dma_map_page f.page2 + i) ≡ m (os.dma_map_page f.page1 + i))
page_load-copies os f wqs wq q g e m p j whole many device queue on dma given same up small fits
      gave runs asked succeeds polls faults =
    let dst = os.dma_map_page f.page2 in
    let src = os.dma_map_page f.page1 in
    let (c, found, exit) =
      exit_drops_client os.get_channel os.devices wqs wq many device queue on dma given in
    let (d, submits, r, ran, ended, ends) =
      dsa_copy-returns os.dma_prep_interrupt q e dst src os.differs g m up small fits in
    let success =
      rounds-success poll_retry_max fault_retry_max p polls os.attempts (suc fault_retry_max) 0 j
        (start d) succeeds (omega arith) (omega arith) (omega arith) in
    (
      record (with_runs os f (some c)) { copied = some r },
      r,
      d,
      loaded os f c whole found (copy_ran os f c q g (same c) gave ran),
      refl,
      ends ∙ success,
      submits,
      λ i h.
          memory_of-copied os.dma_prep_interrupt q e dst src os.differs g m d i small runs asked
            submits success h,
    )
