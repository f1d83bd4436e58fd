-- ===== src/Copy/Finish/Ends.antt =====
-- How the polling of `dsa_copy` of
-- DSA_Kernelspace_Test/1.kernel_test/kernel_test_sgtable_batch.c ends.
use dsa_test.Base.{
  times, ℕ, zero, suc, ◌+◌, ◌<◌, ◌≡◌, refl, sym, ap, ◌∙◌, Bool, true, false, not, ◌&&◌, none, some,
  List, [], ◌∷◌, ◌++◌, map, ltb, ◌==◌, length, arith, Bool-cases, inl, inr, returns, length-map,
}
use dsa_test.Desc.{Desc, Wq, Seg, Grant, DescList, enabled}
use dsa_test.Desc.Batch.{entrywise}
use dsa_test.Copy.{batch_lists}
use dsa_test.Copy.Batches.{AllNew, asked_all, batch_lists-ran}
use dsa_test.Copy.Cuts.{NoSingle, common}
use dsa_test.Copy.Loop
use dsa_test.Copy.Loop.{poll_retry_max, sweep, poll_loop}
use dsa_test.Copy.Loop.Polls.{succeeds_at, Pending, poll_loop-all}
use dsa_test.Copy.Finish.{
  Entry, Pass, numbered, submit_entries, visit_entry, sweep_entries, poll_entries, finished,
  SgTables, released, unmap_and_free, copy_entries, entry_count, dsa_copy,
}
use dsa_test.Copy.Finish.Mappings.{mapped, items, items-numbered, poll_entries-unmaps_once}

-- The entry as `Copy.Loop` has it, without its batch.
abbrev pub strip : Entry → Loop.Entry
strip e = record {
  number = e.number;
  desc = e.item.desc;
  completion = not (e.item.completion == 0);
}

-- The pass of `Copy.Loop` over the same entries.
visit_entry-sweep :
    (status : ℕ → ℕ) (e : Entry) (p : Pass) (es : List Loop.Entry)
    → sweep status es ≡ (map strip p.kept, p.counted)
    → sweep status (strip e ∷ es) ≡ (
      map strip (visit_entry (status e.number) e p).kept,
      (visit_entry (status e.number) e p).counted,
    )
unfolding sweep visit_entry
visit_entry-sweep status e p es h = rw h (ground arith)

sweep_entries-sweep :
    (status : ℕ → ℕ) (es : List Entry)
    → sweep status (map strip es)
      ≡ (map strip (sweep_entries status es).kept, (sweep_entries status es).counted)
unfolding sweep sweep_entries
sweep_entries-sweep status [] = refl
sweep_entries-sweep status (e ∷ es) =
    visit_entry-sweep status e (sweep_entries status es) (map strip es)
      (sweep_entries-sweep status es)

-- The polling of `dsa_copy` in kernel_test_sgtable_batch.c leaves the same entries, after as many
-- passes, as that of kernel_test_sgtable.c.
pub poll_entries-poll_loop :
    (status : ℕ → ℕ → ℕ) (n poll nents poll_entry : ℕ) (es : List Entry) (done : List ℕ)
    → poll_loop status n poll nents poll_entry (map strip es) ≡ (
      map strip (poll_entries status n poll nents poll_entry es done).0,
      (poll_entries status n poll nents poll_entry es done).2,
    )
unfolding poll_loop poll_entries
poll_entries-poll_loop status zero poll nents poll_entry es done = refl
poll_entries-poll_loop status (suc n) poll nents poll_entry es done =
    let p = sweep_entries (status poll) es in
    elim (Bool-cases (ltb poll_entry nents)) [
      | inl going ↦
          rw (going, poll_loop, poll_entries)
            (rw (sweep_entries-sweep (status poll) es) (
              poll_entries-poll_loop status n (poll + 1) nents (poll_entry + p.counted) p.kept
                (done ++ p.unmapped)))
      | inr over ↦ rw (over, poll_loop, poll_entries) refl
    ]

pub submit_entries-all :
    (refuses : ℕ → Bool) (k : ℕ) (ls : List DescList)
    → ((i : ℕ) → refuses i ≡ false)
    → AllNew ls
    → submit_entries refuses k ls ≡ returns none
unfolding submit_entries
submit_entries-all refuses k [] willing new = refl
submit_entries-all refuses k (l ∷ ls) willing ((fresh, (d, has)), new) =
    rw (has, willing k) (submit_entries-all refuses (k + 1) ls willing new)

numbered-Pending :
    (finish : ℕ → ℕ) (hi i : ℕ) (ls : List DescList)
    → ((k : ℕ) → finish k < hi)
    → AllNew ls
    → Pending finish 0 hi (map strip (numbered i ls))
unfolding Pending
numbered-Pending finish hi i [] soon new = tt
numbered-Pending finish hi i (l ∷ ls) soon ((fresh, has), new) =
    (rw fresh refl, omega arith, soon i, numbered-Pending finish hi (i + 1) ls soon new)

length-numbered : (i : ℕ) (ls : List DescList) → length (numbered i ls) ≡ length ls
length-numbered i [] = refl
length-numbered i (l ∷ ls) = ap suc (length-numbered (i + 1) ls)

map_nil : (es : List Entry) → map strip es ≡ [] → es ≡ []
map_nil [] h = refl
map_nil (e ∷ es) h = absurd cc

-- What the polling of new entries leaves when all report success in time.
record Ended (ls : List DescList) (r : List Entry × List ℕ × ℕ) : Type 0 where
  done : List ℕ
  poll : ℕ
  ran : r ≡ ([], done, poll)
  unmapped : (a : ℕ) → times done a ≡ times (mapped ls) a

poll_entries-Ended :
    (finish : ℕ → ℕ) (ls : List DescList)
    → ((k : ℕ) → finish k < poll_retry_max)
    → AllNew ls
    → Ended ls (poll_entries (succeeds_at finish) poll_retry_max 0 (length ls) 0 (numbered 0 ls) [])
poll_entries-Ended finish ls soon new =
    let es = numbered 0 ls in
    let r = poll_entries (succeeds_at finish) poll_retry_max 0 (length ls) 0 es [] in
    let (last, ran) =
      poll_loop-all finish poll_retry_max 0 (length ls) 0 (map strip es)
        (numbered-Pending finish (0 + poll_retry_max) 0 ls soon new)
        (omega (arith, length-map strip es, length-numbered 0 ls)) in
    let same = poll_entries-poll_loop (succeeds_at finish) poll_retry_max 0 (length ls) 0 es [] in
    let empty : r.0 ≡ [] = map_nil r.0 (ap (λ t. t.0) (sym same ∙ ran)) in
    record {
      done = r.1;
      poll = r.2;
      ran = ap (λ kept. (kept, r.1, r.2)) empty;
      unmapped = λ a.
          let balanced =
            poll_entries-unmaps_once a (succeeds_at finish) poll_retry_max 0 (length ls) 0 es in
          let none_left = ap (λ kept. times (mapped (items kept)) a) empty in
          omega (arith, balanced, none_left) ∙ ap (λ l. times (mapped l) a) (items-numbered 0 ls);
    }

pub copy_entries-finished :
    (refuses : ℕ → Bool) (status : ℕ → ℕ → ℕ) (tables : SgTables) (nents : ℕ) (ls : List DescList)
    (r : List Entry × List ℕ × ℕ)
    → nents ≡ length ls
    → submit_entries refuses 0 ls ≡ returns none
    → poll_entries status poll_retry_max 0 (length ls) 0 (numbered 0 ls) [] ≡ r
    → copy_entries refuses status tables nents ls ≡ returns (finished r.0 r.1 r.2 released)
unfolding copy_entries unmap_and_free
copy_entries-finished refuses status tables nents ls r size submitted polled =
    ap (λ n. copy_entries refuses status tables n ls) size
    ∙ rw (submitted, copy_entries) (ap (λ t. returns (finished t.0 t.1 t.2 released)) polled)

-- On an enabled queue, when the driver gives a descriptor for every batch and refuses none, and every
-- record shows success before the polls run out, two tables of more than one entry, which leave no batch of one, are copied to the
-- end: the batches ask for each pair of entries once and in order, none is left on the list, and
-- each of their mappings has been unmapped once; the tables are unmapped and freed then.
pub dsa_copy-ends :
    (p : ℕ) (wq : Wq) (grants : ℕ → Grant) (refuses : ℕ → Bool) (finish : ℕ → ℕ) (tables : SgTables)
    → wq.state ≡ enabled
    → ((i : ℕ) → (d : Desc) × ((grants i).alloc ≡ some d))
    → ((k : ℕ) → refuses k ≡ false)
    → ((k : ℕ) → finish k < poll_retry_max)
    → 0 < wq.idxd.max_batch_size
    → (srcs dsts : List Seg) → 1 < length srcs
    → 1 < length dsts
    → NoSingle (common (length srcs) (length dsts)) wq.idxd.max_batch_size
    → (ls : List DescList) × (done : List ℕ) × (poll : ℕ) × (batch_lists p wq grants
          (length srcs)
          (length dsts)
          srcs
          dsts
        ≡ returns ls)
      × (dsa_copy p wq grants refuses
            (succeeds_at finish)
            tables
            (length srcs)
            (length dsts)
            srcs
            dsts
          ≡ returns (finished [] done poll released))
      × (asked_all ls ≡ entrywise dsts srcs)
      × ((a : ℕ) → times done a ≡ times (mapped ls) a)
unfolding dsa_copy
dsa_copy-ends p wq grants refuses finish tables on given willing soon sized srcs dsts h1 h2 pairs =
    let (ls, ran, size, copies, new, counts) =
      batch_lists-ran p wq grants on given sized srcs dsts h1 h2 in
    let e = poll_entries-Ended finish ls soon new in
    let more : (ltb 1 (length srcs) && ltb 1 (length dsts)) ≡ true = ground arith in
    let nents : entry_count wq.idxd.max_batch_size (length srcs) (length dsts) ≡ length ls =
      rw more (sym size) in
    (
      ls,
      e.done,
      e.poll,
      ran,
      rw ran (
          copy_entries-finished refuses (succeeds_at finish) tables _ ls ([], e.done, e.poll) nents
            (submit_entries-all refuses 0 ls willing new) e.ran),
      copies pairs,
      e.unmapped,
    )
