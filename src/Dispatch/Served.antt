-- ===== src/Dispatch/Served.antt =====
-- What the submissions of `dsa_copy` of
-- DSA_Kernelspace_Test/3.kernel_test_N_DSAs/kernel_test_sgtable_batch.c ask for.
use dsa_test.Base.{
  ℕ, zero, suc, ◌+◌, ◌*◌, ◌-◌, ◌≤◌, ◌≡◌, refl, sym, ap₂, ◌∙◌, some, List, [], ◌∷◌, ◌++◌, length,
  length-append, map, max, arith, Outcome, returns, Has, there, length-map, here,
}
use dsa_test.Desc.{Desc, Grant, DescList}
use dsa_test.Desc.Batch.{entrywise}
use dsa_test.Copy.Batches.{asked_all}
use dsa_test.Dispatch.Visits.{
  owes, IsReady, visit_lane-Visited, owes-zero, IsServable, lane-IsReady,
}
use dsa_test.Dispatch.{
  Queue, Lane, TaskPointer, null, lane, max_entries, sweep_lanes, rounds, total_entries, dispatch,
}

data AllReady (cur : ℕ) : List Lane → Type 0 where
  all_nil : AllReady cur []
  all_cons : {l : Lane} {ls : List Lane} → IsReady cur l → AllReady cur ls → AllReady cur (l ∷ ls)

-- How many entries are to be made from round `cur` on.
pending : ℕ → List Lane → ℕ
pending cur [] = 0
pending cur (l ∷ ls) = (l.descs_entries - cur) + pending cur ls

abbrev Submissions : Type 0
Submissions = Outcome (List DescList × List Lane × TaskPointer)

record Swept (cur : ℕ) (ls : List Lane) (r : Submissions) : Type 0 where
  new : List DescList
  after : List Lane
  task : TaskPointer
  ran : r ≡ returns (new, after, task)
  ready : AllReady (cur + 1) after
  asks : map (owes (cur + 1)) after ≡ map (owes cur) ls
  same : max_entries after ≡ max_entries ls
  count : length new + pending (cur + 1) after ≡ pending cur ls

record Finished (cur : ℕ) (ls : List Lane) (r : Submissions) : Type 0 where
  entries : List DescList
  after : List Lane
  task : TaskPointer
  ran : r ≡ returns (entries, after, task)
  asks : map (λ l. asked_all l.sent) after ≡ map (owes cur) ls
  count : length entries ≡ pending cur ls

pending-zero : (cur : ℕ) (ls : List Lane) → max_entries ls ≤ cur → pending cur ls ≡ 0
unfolding pending max_entries
pending-zero cur [] h = refl
pending-zero cur (l ∷ ls) h = omega (arith, pending-zero cur ls (omega arith))

all_owes-zero :
    (cur : ℕ) (ls : List Lane)
    → AllReady cur ls
    → max_entries ls ≤ cur
    → map (λ l. asked_all l.sent) ls ≡ map (owes cur) ls
unfolding max_entries
all_owes-zero cur [] all_nil h = refl
all_owes-zero cur (l ∷ ls) (all_cons r rs) h =
    ap₂ ◌∷◌ (owes-zero cur l r (omega arith)) (all_owes-zero cur ls rs (omega arith))

module _ (p : ℕ) (grants : ℕ → ℕ → Grant)
    (given : (i j : ℕ) → (d : Desc) × ((grants i j).alloc ≡ some d)) where
  sweep_lanes-Swept :
      (cur j : ℕ) (ls : List Lane) (task : TaskPointer)
      → AllReady cur ls
      → Swept cur ls (sweep_lanes p (grants cur) cur j ls task)
  unfolding sweep_lanes max_entries pending
  sweep_lanes-Swept cur j [] task all_nil = record {
    new = [];
    after = [];
    task = task;
    ran = refl;
    ready = all_nil;
    asks = refl;
    same = refl;
    count = refl;
  }
  sweep_lanes-Swept cur j (l ∷ ls) task (all_cons r rs) =
      let v = visit_lane-Visited p (grants cur j) (given cur j) cur l task r in
      let w = sweep_lanes-Swept cur (j + 1) ls v.task rs in
      let c = v.count in
      let d = w.count in
      let e = v.same in
      record {
        new = v.new ++ w.new;
        after = v.after ∷ w.after;
        task = w.task;
        ran = rw v.ran (rw w.ran);
        ready = all_cons v.ready w.ready;
        asks = ap₂ ◌∷◌ v.asks w.asks;
        same = ap₂ max v.same w.same;
        count = omega (arith, length-append v.new w.new, c, d, e);
      }

  rounds-Finished :
      (n cur : ℕ) (ls : List Lane) (task : TaskPointer)
      → AllReady cur ls
      → max_entries ls ≤ cur + n
      → Finished cur ls (rounds p grants n cur ls task)
  unfolding rounds
  rounds-Finished zero cur ls task rs h = record {
    entries = [];
    after = ls;
    task = task;
    ran = refl;
    asks = all_owes-zero cur ls rs (omega arith);
    count = sym (pending-zero cur ls (omega arith));
  }
  rounds-Finished (suc n) cur ls task rs h =
      let w = sweep_lanes-Swept cur 0 ls task rs in
      let same = w.same in
      let f = rounds-Finished n (cur + 1) w.after w.task w.ready (omega arith) in
      record {
        entries = w.new ++ f.entries;
        after = f.after;
        task = f.task;
        ran = rw w.ran (rw f.ran);
        asks = f.asks ∙ w.asks;
        count = omega (arith, length-append w.new f.entries, w.count, f.count);
      }

all_lanes :
    (queues : List Queue)
    → ((q : Queue) → Has q queues → IsServable q)
    → AllReady 0 (map lane queues)
      × (map (owes 0) (map lane queues) ≡ map (λ q. entrywise q.dsts q.srcs) queues)
all_lanes [] h = (all_nil, refl)
all_lanes (q ∷ qs) h =
    let (rs, es) = all_lanes qs (λ q' m. h q' (there m)) in
    let (r, e) = lane-IsReady q (h q here) in (all_cons r rs, ap₂ ◌∷◌ e es)

pending_le : (m : ℕ) (ls : List Lane) → max_entries ls ≤ m → pending 0 ls ≤ m * length ls
unfolding pending max_entries
pending_le m [] h = omega arith
pending_le m (l ∷ ls) h =
    let e : m * suc (length ls) ≡ m + m * length ls = omega arith in
    omega (arith, e, pending_le m ls (omega arith))

-- When every queue is enabled, takes batches of at least one descriptor and has two tables of more
-- than one entry, which leave no batch of a single entry, and the driver gives a descriptor each time,
-- `dsa_copy` submits its entries without a fault. What it has sent to each queue makes the engine carry
-- out the copies of the entries that the two tables of that queue have in common, each once and in
-- order, where only MEMMOVEs count, and these only in batches of two at least, at the mapped address
-- of their list and up to the count of the batch; and it makes at most `total_entries` list entries.
pub dispatch-served :
    (p : ℕ) (grants : ℕ → ℕ → Grant)
    → ((i j : ℕ) → (d : Desc) × ((grants i j).alloc ≡ some d))
    → (queues : List Queue) → ((q : Queue) → Has q queues → IsServable q)
    → (entries : List DescList) × (lanes : List Lane) × (task : TaskPointer) × (dispatch p grants
          queues
        ≡ returns (entries, lanes, task))
      × (map (λ l. asked_all l.sent) lanes ≡ map (λ q. entrywise q.dsts q.srcs) queues)
      × (length entries ≤ total_entries queues)
unfolding dispatch total_entries
dispatch-served p grants given queues h =
    let ls = map lane queues in
    let (rs, es) = all_lanes queues h in
    let f = rounds-Finished p grants given (max_entries ls) 0 ls null rs (omega arith) in
    let c = f.count in
    (
      f.entries,
      f.after,
      f.task,
      f.ran,
      f.asks ∙ es,
      rw c (rw (length-map lane queues) at (pending_le (max_entries ls) ls (omega arith))),
    )
