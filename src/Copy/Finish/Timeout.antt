-- ===== src/Copy/Finish/Timeout.antt =====
-- What `dsa_copy` of DSA_Kernelspace_Test/1.kernel_test/kernel_test_sgtable_batch.c does when the
-- engine does not report.
use dsa_test.Base.{
  ℕ, zero, suc, ◌+◌, ◌<◌, ◌≡◌, refl, sym, ap, ◌∙◌, Bool, true, false, some, List, [], ◌∷◌, ltb,
  length, arith, returns, ◌&&◌,
}
use dsa_test.Desc.{Desc, Wq, Seg, Grant, DescList, enabled}
use dsa_test.Desc.Batch.{entrywise}
use dsa_test.Copy.Cuts.{NoSingle, common, div_up_pos}
use dsa_test.Copy.Batches.{AllNew, asked_all, batch_lists-ran}
use dsa_test.Copy.Loop.{poll_retry_max}
use dsa_test.Copy.Finish.{
  numbered, visit_entry, sweep_entries, poll_entries, finished, SgTables, released, entry_count,
  dsa_copy,
}
use dsa_test.Copy.Finish.Ends.{submit_entries-all, copy_entries-finished}

abbrev pub silent : ℕ → ℕ → ℕ
silent poll number = 0

sweep_entries-silent :
    (i poll : ℕ) (ls : List DescList)
    → AllNew ls
    → sweep_entries (silent poll) (numbered i ls)
      ≡ record { kept = numbered i ls; unmapped = []; counted = 0 }
unfolding sweep_entries visit_entry
sweep_entries-silent i poll [] new = refl
sweep_entries-silent i poll (l ∷ ls) ((fresh, has), new) =
    rw (sweep_entries-silent (i + 1) poll ls new, fresh) refl

poll_entries-silent :
    (n poll nents i : ℕ) (ls : List DescList)
    → AllNew ls
    → 0 < nents
    → poll_entries silent n poll nents 0 (numbered i ls) [] ≡ (numbered i ls, [], poll + n + 1)
unfolding poll_entries
poll_entries-silent zero poll nents i ls new h =
    let e : poll + 1 ≡ poll + 0 + 1 = omega arith in ap (λ k. (numbered i ls, [], k)) e
poll_entries-silent (suc n) poll nents i ls new h =
    let going : ltb 0 nents ≡ true = ground arith in
    let e : poll + 1 + n + 1 ≡ poll + suc n + 1 = omega arith in
    rw (going, poll_entries)
      (rw (sweep_entries-silent i poll ls new)
        (poll_entries-silent n (poll + 1) nents i ls new h ∙ ap (λ k. (numbered i ls, [], k)) e))

-- When the engine reports on nothing, `dsa_copy`, on an enabled queue and two tables of more than one
-- entry, which leave no batch of one, with a descriptor for every batch and none refused, stops after
-- `POLL_RETRY_MAX` passes with every batch still on its list and none of their lists unmapped; in the
-- end both tables, whose pages these batches copy between, are unmapped and without entries.
pub dsa_copy-gives_up :
    (p : ℕ) (wq : Wq) (grants : ℕ → Grant) (refuses : ℕ → Bool) (tables : SgTables)
    → wq.state ≡ enabled
    → ((i : ℕ) → (d : Desc) × ((grants i).alloc ≡ some d))
    → ((k : ℕ) → refuses k ≡ false)
    → 0 < wq.idxd.max_batch_size
    → (srcs dsts : List Seg) → 1 < length srcs
    → 1 < length dsts
    → NoSingle (common (length srcs) (length dsts)) wq.idxd.max_batch_size
    → (ls : List DescList) × (asked_all ls ≡ entrywise dsts srcs)
      × (dsa_copy p wq grants refuses silent tables (length srcs) (length dsts) srcs dsts
          ≡ returns (finished (numbered 0 ls) [] (poll_retry_max + 1) released))
unfolding dsa_copy
dsa_copy-gives_up p wq grants refuses tables on given willing sized srcs dsts h1 h2 pairs =
    let (ls, ran, size, copies, new, counts) =
      batch_lists-ran p wq grants on given sized srcs dsts h1 h2 in
    let total = common (length srcs) (length dsts) in
    let more : (ltb 1 (length srcs) && ltb 1 (length dsts)) ≡ true = ground arith in
    let nents : entry_count wq.idxd.max_batch_size (length srcs) (length dsts) ≡ length ls =
      rw more (sym size) in
    let busy : 0 < total = ground arith in
    let batches = div_up_pos total wq.idxd.max_batch_size busy sized in
    (
      ls,
      copies pairs,
      rw ran (
          copy_entries-finished refuses silent tables _ ls (numbered 0 ls, [], poll_retry_max + 1)
            nents (submit_entries-all refuses 0 ls willing new)
            (poll_entries-silent poll_retry_max 0 (length ls) 0 ls new
              (omega (arith, size, batches)))),
    )
