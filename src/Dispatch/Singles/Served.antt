-- ===== src/Dispatch/Singles/Served.antt =====
-- What the submissions of `dsa_copy` of
-- DSA_Kernelspace_Test/3.kernel_test_N_DSAs/kernel_test_sgtable.c ask for.
use dsa_test.Base.{
  ℕ, zero, suc, ◌+◌, ◌-◌, ◌^◌, ◌≤◌, ◌<◌, ◌≡◌, refl, sym, ap, ap₂, ◌∙◌, min, max, true, false, some,
  List, [], ◌∷◌, ◌++◌, length, map, ltb, arith, dec_lt, append-nil, append_assoc, Outcome, returns,
  Has, here, there,
}
use dsa_test.Desc.{Desc, Seg, Grant, DescList, enabled}
use dsa_test.Desc.Batch.{Transfer, shortest}
use dsa_test.Copy.Loop.Success.{Fit}
use dsa_test.Copy.Batches.{
  asked, asked_all, asked_all-append, asked_all-one, asked_all-nil, single-asked,
}
use dsa_test.Dispatch.{Queue, Lane, max_entries}
use dsa_test.Dispatch.Singles.{
  single_lane, visit_single, sweep_singles, single_rounds, dispatch_singles,
}

-- What a queue has asked for, and what it has yet to ask for.
owes : Lane → List Transfer
owes l = asked_all l.sent ++ shortest l.sg_dst l.sg_src

-- A queue that can be served from round `cur` on.
record IsReady (cur : ℕ) (l : Lane) : Type 0 where
  on : l.wq.state ≡ enabled
  small : l.wq.idxd.max_xfer_bytes < 2 ^ 32
  fit : Fit l.wq.idxd.max_xfer_bytes l.sg_dst
  left : min (length l.sg_src) (length l.sg_dst) ≡ l.descs_entries - cur

record Visited (cur : ℕ) (l : Lane) (r : Outcome (List DescList × Lane)) : Type 0 where
  new : List DescList
  after : Lane
  ran : r ≡ returns (new, after)
  ready : IsReady (cur + 1) after
  asks : owes after ≡ owes l
  same : after.descs_entries ≡ l.descs_entries

owes-advance :
    (l : Lane) (desc_list : DescList) (d s : Seg) (dsts srcs : List Seg)
    → asked desc_list ≡ shortest (d ∷ []) (s ∷ [])
    → asked_all (l.sent ++ desc_list ∷ []) ++ shortest dsts srcs
      ≡ asked_all l.sent ++ shortest (d ∷ dsts) (s ∷ srcs)
owes-advance l desc_list d s dsts srcs e =
    ap (λ t. t ++ shortest dsts srcs)
      (asked_all-append l.sent (desc_list ∷ [])
        ∙ ap (◌++◌ (asked_all l.sent)) (asked_all-one desc_list ∙ e))
    ∙ append_assoc (asked_all l.sent) (shortest (d ∷ []) (s ∷ [])) (shortest dsts srcs)

shortest-nil :
    (dsts srcs : List Seg) → min (length srcs) (length dsts) ≡ 0 → shortest dsts srcs ≡ []
shortest-nil [] srcs h = refl
shortest-nil (d ∷ dsts) [] h = refl
shortest-nil (d ∷ dsts) (s ∷ srcs) h = absurd (omega arith)

module _ (p : ℕ) (g : Grant) (given : (d : Desc) × (g.alloc ≡ some d)) where
  visit_single-busy :
      (cur : ℕ) (l : Lane) (dsts srcs : List Seg)
      → l.sg_dst ≡ dsts
      → l.sg_src ≡ srcs
      → cur < l.descs_entries
      → l.wq.state ≡ enabled
      → l.wq.idxd.max_xfer_bytes < 2 ^ 32
      → Fit l.wq.idxd.max_xfer_bytes dsts
      → min (length srcs) (length dsts) ≡ l.descs_entries - cur
      → Visited cur l (visit_single p g cur l)
  unfolding visit_single owes
  visit_single-busy cur l [] srcs a b h on small fit left = absurd (omega arith)
  visit_single-busy cur l (d ∷ dsts) [] a b h on small fit left = absurd (omega arith)
  visit_single-busy cur l (d ∷ dsts) (s ∷ srcs) a b h on small (fits, fit) left =
      let going : ltb cur l.descs_entries ≡ true = ground arith in
      let (desc_list, made, copy) = single-asked p l.wq g d s dsts srcs on small given fits in
      record {
        new = desc_list ∷ [];
        after = record l { sg_src = srcs; sg_dst = dsts; sent = l.sent ++ desc_list ∷ [] };
        ran = rw (going, a, b) (rw made refl);
        ready = record { on = on; small = small; fit = fit; left = omega arith };
        asks =
            owes-advance l desc_list d s dsts srcs copy
            ∙ ap₂ (λ x y. asked_all l.sent ++ shortest x y) (sym a) (sym b);
        same = refl;
      }

  visit_single-Visited :
      (cur : ℕ) (l : Lane) → IsReady cur l → Visited cur l (visit_single p g cur l)
  unfolding visit_single
  visit_single-Visited cur l r = elim (dec_lt cur l.descs_entries) [
    | yes h ↦ visit_single-busy cur l l.sg_dst l.sg_src refl refl h r.on r.small r.fit r.left
    | no h ↦
        let over : ltb cur l.descs_entries ≡ false = ground arith in
        let left = r.left in
        record {
          new = [];
          after = l;
          ran = rw over refl;
          ready = record { on = r.on; small = r.small; fit = r.fit; left = omega arith };
          asks = refl;
          same = refl;
        }
  ]

data AllReady (cur : ℕ) : List Lane → Type 0 where
  ready_nil : AllReady cur []
  ready_cons : {l : Lane} {ls : List Lane} → IsReady cur l → AllReady cur ls → AllReady cur (l ∷ ls)

record Swept (cur : ℕ) (ls : List Lane) (r : Outcome (List DescList × List Lane)) : Type 0 where
  new : List DescList
  after : List Lane
  ran : r ≡ returns (new, after)
  ready : AllReady (cur + 1) after
  asks : map owes after ≡ map owes ls
  same : max_entries after ≡ max_entries ls

all_sent :
    (cur : ℕ) (ls : List Lane)
    → AllReady cur ls
    → max_entries ls ≤ cur
    → map (λ l. asked_all l.sent) ls ≡ map owes ls
unfolding owes max_entries
all_sent cur [] ready_nil h = refl
all_sent cur (l ∷ ls) (ready_cons r rs) h =
    let left = r.left in
    let nothing = shortest-nil l.sg_dst l.sg_src (omega arith) in
    ap₂ ◌∷◌ (sym (rw nothing (append-nil (asked_all l.sent)))) (all_sent cur ls rs (omega arith))

module _ (p : ℕ) (grants : ℕ → ℕ → Grant)
    (given : (i j : ℕ) → (d : Desc) × ((grants i j).alloc ≡ some d)) where
  sweep_singles-Swept :
      (cur j : ℕ) (ls : List Lane)
      → AllReady cur ls
      → Swept cur ls (sweep_singles p (grants cur) cur j ls)
  unfolding sweep_singles max_entries
  sweep_singles-Swept cur j [] ready_nil = record {
    new = [];
    after = [];
    ran = refl;
    ready = ready_nil;
    asks = refl;
    same = refl;
  }
  sweep_singles-Swept cur j (l ∷ ls) (ready_cons r rs) =
      let v = visit_single-Visited p (grants cur j) (given cur j) cur l r in
      let w = sweep_singles-Swept cur (j + 1) ls rs in
      record {
        new = v.new ++ w.new;
        after = v.after ∷ w.after;
        ran = rw v.ran (rw w.ran refl);
        ready = ready_cons v.ready w.ready;
        asks = ap₂ ◌∷◌ v.asks w.asks;
        same = ap₂ max v.same w.same;
      }

  single_rounds-sent :
      (n cur : ℕ) (ls : List Lane)
      → AllReady cur ls
      → max_entries ls ≤ cur + n
      → (entries : List DescList) × (after : List Lane) × (single_rounds p grants n cur ls
          ≡ returns (entries, after))
        × (map (λ l. asked_all l.sent) after ≡ map owes ls)
  unfolding single_rounds
  single_rounds-sent zero cur ls rs h = ([], ls, refl, all_sent cur ls rs (omega arith))
  single_rounds-sent (suc n) cur ls rs h =
      let w = sweep_singles-Swept cur 0 ls rs in
      let same = w.same in
      let (entries, after, ran, asks) =
        single_rounds-sent n (cur + 1) w.after w.ready (omega arith) in
      (w.new ++ entries, after, rw w.ran (rw ran refl), asks ∙ w.asks)

-- A queue that takes single descriptors for its entries.
pub record TakesSingles (q : Queue) : Type 0 where
  pub on : q.wq.state ≡ enabled
  pub small : q.wq.idxd.max_xfer_bytes < 2 ^ 32
  pub fit : Fit q.wq.idxd.max_xfer_bytes q.dsts

single_lanes :
    (queues : List Queue)
    → ((q : Queue) → Has q queues → TakesSingles q)
    → AllReady 0 (map single_lane queues)
      × (map owes (map single_lane queues) ≡ map (λ q. shortest q.dsts q.srcs) queues)
unfolding owes single_lane
single_lanes [] h = (ready_nil, refl)
single_lanes (q ∷ qs) h =
    let (rs, es) = single_lanes qs (λ r i. h r (there i)) in
    let t = h q here in
    (
      ready_cons (record { on = t.on; small = t.small; fit = t.fit; left = omega arith }) rs,
      ap₂ ◌∷◌ (ap (λ x. x ++ shortest q.dsts q.srcs) asked_all-nil) es,
    )

-- When every queue is enabled and its destination entries are within the device's limit, which fits
-- 32 bits, and the driver gives a descriptor each time, `dsa_copy` submits without a fault, for tables
-- of any length: what it has sent to each queue asks for the copies of the entries that the two
-- tables of that queue have in common, each once and in order, of the shorter entry's length.
pub dispatch_singles-served :
    (p : ℕ) (grants : ℕ → ℕ → Grant)
    → ((i j : ℕ) → (d : Desc) × ((grants i j).alloc ≡ some d))
    → (queues : List Queue) → ((q : Queue) → Has q queues → TakesSingles q)
    → (entries : List DescList) × (lanes : List Lane) × (dispatch_singles p grants queues
        ≡ returns (entries, lanes))
      × (map (λ l. asked_all l.sent) lanes ≡ map (λ q. shortest q.dsts q.srcs) queues)
unfolding dispatch_singles
dispatch_singles-served p grants given queues h =
    let ls = map single_lane queues in
    let (rs, es) = single_lanes queues h in
    let (entries, after, ran, asks) =
      single_rounds-sent p grants given (max_entries ls) 0 ls rs (omega arith) in
    (entries, after, ran, asks ∙ es)
