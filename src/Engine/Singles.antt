-- ===== src/Engine/Singles.antt =====
-- The areas behind the tables after the copies with one descriptor for each pair of entries: `dsa_copy`
-- of DSA_Kernelspace_Test/1.kernel_test/kernel_test_sgtable.c, and the submissions of
-- DSA_Kernelspace_Test/3.kernel_test_N_DSAs/kernel_test_sgtable.c.
mod Examples
use dsa_test.Base.{
  ℕ, ◌<◌, ◌≡◌, refl, ap₂, min, some, false, List, [], ◌∷◌, map, length, concat, Has, here, there,
  returns, arith, ◌^◌,
}
use dsa_test.Desc.{Desc, Wq, Seg, Grant, DescList, enabled}
use dsa_test.Desc.Batch.{transfer, entrywise, shortest}
use dsa_test.Copy.Batches.{asked_all}
use dsa_test.Copy.Loop.{Kernel, finished, dsa_copy, poll_retry_max}
use dsa_test.Copy.Loop.Polls.{succeeds_at}
use dsa_test.Copy.Loop.Success.{Fit, dsa_copy-success}
use dsa_test.Dispatch.{Queue, Lane}
use dsa_test.Dispatch.Singles.{dispatch_singles}
use dsa_test.Dispatch.Singles.Served.{TakesSingles, dispatch_singles-served}
use dsa_test.Engine.{Engine, Memory, carry_out, area, IsApart}
use dsa_test.Engine.Areas.{cons_head, cons_tail, SameSizes, tables_copied}
use dsa_test.Engine.Copied.{all_dsts, all_srcs, queues_entrywise}

-- For tables whose entries have the same lengths it makes no difference which of the two counts.
shortest-entrywise :
    (dsts srcs : List Seg) → SameSizes dsts srcs → shortest dsts srcs ≡ entrywise dsts srcs
shortest-entrywise [] srcs h = refl
shortest-entrywise (d ∷ dsts) [] h = refl
shortest-entrywise (d ∷ dsts) (s ∷ srcs) h =
    let same : d.dma_len ≡ s.dma_len = cons_head h in
    let least : min s.dma_len d.dma_len ≡ d.dma_len = omega arith in
    ap₂ (λ n us. record { src = s.dma_address; dst = d.dma_address; len = n } ∷ us) least
      (shortest-entrywise dsts srcs (cons_tail h))

-- When the queue is enabled, the driver has a descriptor for every entry, refuses none, and every
-- record shows success before the polls of its round run out, and both tables have more than one
-- entry, of the same lengths, within the device's limit and apart, then `dsa_copy` ends after its last
-- round with no entry left; and whatever order the engine carries out the copies of all rounds in, the
-- area behind the destination table is then what was behind the source table.
pub dsa_copy-copies :
    (e : Engine) (m : Memory) (os : Kernel) (wq : Wq) (finish : ℕ → ℕ)
    → wq.state ≡ enabled
    → wq.idxd.max_xfer_bytes < 2 ^ 32
    → ((i : ℕ) → (d : Desc) × (os.alloc i ≡ some d))
    → ((k : ℕ) → os.refuses k ≡ false)
    → ((i : ℕ) → finish i < poll_retry_max)
    → ((loop : ℕ) → os.status loop ≡ succeeds_at finish)
    → 0 < wq.num_descs
    → (srcs dsts : List Seg) → 1 < length srcs
    → 1 < length dsts
    → Fit wq.idxd.max_xfer_bytes dsts
    → SameSizes dsts srcs
    → IsApart srcs dsts
    → (log : List Desc) × (poll : ℕ) × (dsa_copy os wq srcs dsts ≡ returns (finished log [] poll))
      × (area (carry_out e (map (λ d. transfer d.hw) log) m) dsts ≡ area m srcs)
dsa_copy-copies e m os wq finish on small given willing soon shown sized srcs dsts h1 h2 fit sizes
      apart =
    let (log, poll, ran, copies) =
      dsa_copy-success os wq finish on small given willing soon shown srcs dsts h1 h2 sized fit in
    (
      log,
      poll,
      ran,
      rw (copies, shortest-entrywise dsts srcs sizes) (tables_copied e dsts srcs sizes apart m),
    )

queues_shortest :
    (queues : List Queue)
    → ((q : Queue) → Has q queues → SameSizes q.dsts q.srcs)
    → map (λ q. shortest q.dsts q.srcs) queues ≡ map (λ q. entrywise q.dsts q.srcs) queues
queues_shortest [] h = refl
queues_shortest (q ∷ qs) h =
    ap₂ ◌∷◌ (shortest-entrywise q.dsts q.srcs (h q here))
      (queues_shortest qs (λ r i. h r (there i)))

-- When every queue is enabled and its destination entries are within the device's limit, which fits
-- 32 bits, the entries of its two tables have the same lengths, all destinations are apart from all
-- sources and from each other, and the driver gives a descriptor each time, then `dsa_copy` submits
-- without a fault, for tables of any length; and whatever order the engine carries out the copies in,
-- the areas behind the destination tables are then what was behind the source tables.
pub dispatch_singles-copies :
    (e : Engine) (m : Memory) (p : ℕ) (grants : ℕ → ℕ → Grant)
    → ((i j : ℕ) → (d : Desc) × ((grants i j).alloc ≡ some d))
    → (queues : List Queue) → ((q : Queue) → Has q queues → TakesSingles q)
    → ((q : Queue) → Has q queues → SameSizes q.dsts q.srcs)
    → IsApart (all_srcs queues) (all_dsts queues)
    → (entries : List DescList) × (lanes : List Lane) × (dispatch_singles p grants queues
        ≡ returns (entries, lanes))
      × (area (carry_out e (concat (map (λ l. asked_all l.sent) lanes)) m) (all_dsts queues)
          ≡ area m (all_srcs queues))
dispatch_singles-copies e m p grants given queues takes sizes apart =
    let (entries, lanes, ran, copies) = dispatch_singles-served p grants given queues takes in
    let (all, all_sizes) = queues_entrywise queues sizes in
    (
      entries,
      lanes,
      ran,
      rw (copies, queues_shortest queues sizes, all)
          (tables_copied e (all_dsts queues) (all_srcs queues) all_sizes apart m),
    )
