-- ===== src/Engine/Copied.antt =====
-- The areas behind the tables after the submissions of
-- DSA_Kernelspace_Test/1.kernel_test/kernel_test_sgtable_batch.c, of
-- DSA_Kernelspace_Test/1.kernel_test/kernel_test_sgtable.c and of
-- DSA_Kernelspace_Test/3.kernel_test_N_DSAs/kernel_test_sgtable_batch.c.
use dsa_test.Base.{
  Bool, false, map-append, ℕ, ◌<◌, ◌≡◌, refl, sym, ap, ap₂, ◌∙◌, some, List, [], ◌∷◌, ◌++◌, map,
  length, concat, Has, here, there, returns,
}
use dsa_test.Desc.{Desc, Wq, Seg, Grant, DescList, enabled}
use dsa_test.Desc.Batch.{entrywise}
use dsa_test.Copy.{batch_lists}
use dsa_test.Copy.Batches.{asked_all, batch_lists-asked}
use dsa_test.Copy.Cuts.{NoSingle, common}
use dsa_test.Copy.Loop.{poll_retry_max}
use dsa_test.Copy.Loop.Polls.{succeeds_at}
use dsa_test.Copy.Finish.{SgTables, released, finished, dsa_copy}
use dsa_test.Copy.Finish.Ends.{dsa_copy-ends}
use dsa_test.Dispatch.{Queue, Lane, TaskPointer, dispatch}
use dsa_test.Dispatch.Visits.{IsServable}
use dsa_test.Dispatch.Served.{dispatch-served}
use dsa_test.Engine.{Engine, Memory, carry_out, area, IsApart}
use dsa_test.Engine.Areas.{cons_tail, SameSizes, tables_copied}

-- On an enabled queue, when the driver gives a descriptor for every batch, two tables of more than
-- one entry, which leave no batch of one, and whose entries have the same lengths and are apart, become
-- equal: whatever order the
-- engine carries out the copies of the batches in, the area behind the destination table is then
-- what was behind the source table.
pub batch_lists-copies :
    (e : Engine) (m : Memory) (p : ℕ) (wq : Wq) (grants : ℕ → Grant)
    → wq.state ≡ enabled
    → ((i : ℕ) → (d : Desc) × ((grants i).alloc ≡ some d))
    → 0 < wq.idxd.max_batch_size
    → (srcs dsts : List Seg) → 1 < length srcs
    → 1 < length dsts
    → NoSingle (common (length srcs) (length dsts)) wq.idxd.max_batch_size
    → SameSizes dsts srcs
    → IsApart srcs dsts
    → (ls : List DescList) × (batch_lists p wq grants (length srcs) (length dsts) srcs dsts
        ≡ returns ls)
      × (area (carry_out e (asked_all ls) m) dsts ≡ area m srcs)
batch_lists-copies e m p wq grants on given sized srcs dsts h1 h2 pairs sizes apart =
    let (ls, ran, count, copies) =
      batch_lists-asked p wq grants on given sized srcs dsts h1 h2 pairs in
    (ls, ran, rw copies (tables_copied e dsts srcs sizes apart m))

-- On an enabled queue, when the driver gives a descriptor for every batch and refuses none, and every
-- record shows success before the polls run out, and two tables of more than one entry, which leave
-- no batch of one and whose entries have the same lengths, are apart, then `dsa_copy` submits its batches and ends with none left; and
-- whatever order the engine carries out their copies in, the area behind the destination table is
-- then what was behind the source table.
pub copy_entries-copies :
    (e : Engine) (m : Memory) (p : ℕ) (wq : Wq) (grants : ℕ → Grant) (refuses : ℕ → Bool)
    (finish : ℕ → ℕ) (tables : SgTables)
    → wq.state ≡ enabled
    → ((i : ℕ) → (d : Desc) × ((grants i).alloc ≡ some d))
    → ((k : ℕ) → refuses k ≡ false)
    → ((k : ℕ) → finish k < poll_retry_max)
    → 0 < wq.idxd.max_batch_size
    → (srcs dsts : List Seg) → 1 < length srcs
    → 1 < length dsts
    → NoSingle (common (length srcs) (length dsts)) wq.idxd.max_batch_size
    → SameSizes dsts srcs
    → IsApart srcs dsts
    → (ls : List DescList) × (done : List ℕ) × (poll : ℕ) × (batch_lists p wq grants
          (length srcs)
          (length dsts)
          srcs
          dsts
        ≡ returns ls)
      × (dsa_copy p wq grants refuses
            (succeeds_at finish)
            tables
            (length srcs)
            (length dsts)
            srcs
            dsts
          ≡ returns (finished [] done poll released))
      × (area (carry_out e (asked_all ls) m) dsts ≡ area m srcs)
copy_entries-copies e m p wq grants refuses finish tables on given willing soon sized srcs dsts h1
      h2 pairs sizes apart =
    let (ls, done, poll, ran, ended, copies, unmapped) =
      dsa_copy-ends p wq grants refuses finish tables on given willing soon sized srcs dsts h1 h2
        pairs in
    (ls, done, poll, ran, ended, rw copies (tables_copied e dsts srcs sizes apart m))

-- The tables of all queues, one after the other.
abbrev pub all_dsts : List Queue → List Seg
all_dsts queues = concat (map (λ q. q.dsts) queues)

abbrev pub all_srcs : List Queue → List Seg
all_srcs queues = concat (map (λ q. q.srcs) queues)

entrywise-append :
    (ds es ss ts : List Seg)
    → SameSizes ds ss
    → entrywise ds ss ++ entrywise es ts ≡ entrywise (ds ++ es) (ss ++ ts)
entrywise-append [] es [] ts h = refl
entrywise-append [] es (s ∷ ss) ts h = absurd cc
entrywise-append (d ∷ ds) es [] ts h = absurd cc
entrywise-append (d ∷ ds) es (s ∷ ss) ts h =
    ap (λ us. record { src = s.dma_address; dst = d.dma_address; len = d.dma_len } ∷ us)
      (entrywise-append ds es ss ts (cons_tail h))

SameSizes-append :
    (ds es ss ts : List Seg) → SameSizes ds ss → SameSizes es ts → SameSizes (ds ++ es) (ss ++ ts)
SameSizes-append ds es ss ts h g =
    map-append (λ d. d.dma_len) ds es ∙ ap₂ ◌++◌ h g ∙ sym (map-append (λ s. s.dma_len) ss ts)

pub queues_entrywise :
    (queues : List Queue)
    → ((q : Queue) → Has q queues → SameSizes q.dsts q.srcs)
    → (concat (map (λ q. entrywise q.dsts q.srcs) queues)
        ≡ entrywise (all_dsts queues) (all_srcs queues))
      × SameSizes (all_dsts queues) (all_srcs queues)
queues_entrywise [] h = (refl, refl)
queues_entrywise (q ∷ qs) h =
    let (e, s) = queues_entrywise qs (λ r i. h r (there i)) in
    (
      ap (◌++◌ (entrywise q.dsts q.srcs)) e
          ∙ entrywise-append q.dsts (all_dsts qs) q.srcs (all_srcs qs) (h q here),
      SameSizes-append q.dsts (all_dsts qs) q.srcs (all_srcs qs) (h q here) s,
    )

-- When every queue is enabled, takes batches of at least one descriptor and has two tables of more
-- than one entry, which leave no batch of a single entry, and of which the entries have the same lengths, when all destinations are apart from
-- all sources and from each other, and the driver gives a descriptor each time, then the areas become
-- equal: whatever order the engine carries out the copies in that `dsa_copy` has sent to the queues,
-- the areas behind the destination tables are then what was behind the source tables.
pub dispatch-copies :
    (e : Engine) (m : Memory) (p : ℕ) (grants : ℕ → ℕ → Grant)
    → ((i j : ℕ) → (d : Desc) × ((grants i j).alloc ≡ some d))
    → (queues : List Queue) → ((q : Queue) → Has q queues → IsServable q)
    → ((q : Queue) → Has q queues → SameSizes q.dsts q.srcs)
    → IsApart (all_srcs queues) (all_dsts queues)
    → (entries : List DescList) × (lanes : List Lane) × (task : TaskPointer) × (dispatch p grants
          queues
        ≡ returns (entries, lanes, task))
      × (area (carry_out e (concat (map (λ l. asked_all l.sent) lanes)) m) (all_dsts queues)
          ≡ area m (all_srcs queues))
dispatch-copies e m p grants given queues served sizes apart =
    let (entries, lanes, task, ran, copies, count) = dispatch-served p grants given queues served in
    let (all, all_sizes) = queues_entrywise queues sizes in
    (
      entries,
      lanes,
      task,
      ran,
      rw (copies, all) (tables_copied e (all_dsts queues) (all_srcs queues) all_sizes apart m),
    )
