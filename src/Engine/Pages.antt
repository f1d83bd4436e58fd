-- ===== src/Engine/Pages.antt =====
-- From the pages of two areas to the copies between them:
-- `vmalloc_to_sgtable` and `dsa_copy` of
-- DSA_Kernelspace_Test/3.kernel_test_N_DSAs/kernel_test_sgtable_batch.c together. `seg` is the mapping
-- that `dma_map_sgtable` gives to a page; it merges no pages.
use dsa_test.Base.{
  ℕ, zero, suc, ◌+◌, ◌*◌, ◌<◌, ◌≡◌, refl, sym, ap, ap₂, ◌∙◌, some, List, [], ◌∷◌, ◌++◌, map,
  map-append, length, concat, slices, drop, get_or, length-take, length-drop, length-map, Has, here,
  there, arith, returns, Bool, false, Option,
}
use dsa_test.Desc.{Desc, Wq, Seg, Grant, DescList, enabled}
use dsa_test.Copy.Cuts.{NoSingle, common}
use dsa_test.Copy.Batches.{asked_all}
use dsa_test.Tables.{TablePair, page_size, table_nents, vmalloc_to_sgtable}
use dsa_test.Tables.Partition.{pair_of, vmalloc_to_sgtable-slices}
use dsa_test.Dispatch.{Queue, Lane, TaskPointer, dispatch}
use dsa_test.Dispatch.Visits.{IsServable}
use dsa_test.Engine.{Engine, Memory, carry_out, area, IsApart}
use dsa_test.Engine.Areas.{SameSizes}
use dsa_test.Engine.Copied.{all_dsts, all_srcs, dispatch-copies}

-- A queue with its two tables, mapped page by page.
abbrev pub queue_of : Wq → (ℕ → Seg) → TablePair → Queue
queue_of wq seg (src, dst) = record { wq = wq; srcs = map seg src.pages; dsts = map seg dst.pages }

-- Queue `i` has pair `i` of the tables.
abbrev pub with_tables : List Wq → (ℕ → Seg) → List TablePair → List Queue
with_tables [] seg tables = []
with_tables (wq ∷ wqs) seg [] = []
with_tables (wq ∷ wqs) seg (pair ∷ tables) = queue_of wq seg pair ∷ with_tables wqs seg tables

slices-length :
    (w n : ℕ) (xs part : List ℕ) → length xs ≡ w * n → Has part (slices w n xs) → length part ≡ n
slices-length zero n xs part h i = elim i [ ]
slices-length (suc w) n xs part h here = omega (arith, length-take n xs)
slices-length (suc w) n xs part h (there i) =
    slices-length w n (drop n xs) part (omega (arith, length-drop n xs)) i

length-slices : (w n : ℕ) (xs : List ℕ) → length (slices w n xs) ≡ w
length-slices zero n xs = refl
length-slices (suc w) n xs = ap suc (length-slices w n (drop n xs))

map-concat :
    {A : Type 0} (f : ℕ → A) (parts : List (List ℕ))
    → concat (map (map f) parts) ≡ map f (concat parts)
map-concat f [] = refl
map-concat f (part ∷ parts) =
    ap (◌++◌ (map f part)) (map-concat f parts) ∙ sym (map-append f part (concat parts))

pub map-map :
    {A B C : Type 0} (f : B → C) (g : A → B) (xs : List A)
    → map f (map g xs) ≡ map (λ x. f (g x)) xs
map-map f g [] = refl
map-map f g (x ∷ xs) = ap (◌∷◌ (f (g x))) (map-map f g xs)

module _ (seg : ℕ → Seg) (src_page dst_page : ℕ → ℕ) (nents : ℕ) where
  abbrev pub queues_of : List Wq → List (List ℕ) → List Queue
  queues_of wqs parts = with_tables wqs seg (map (pair_of src_page dst_page nents) parts)

  queues_of-tables :
      (wqs : List Wq) (parts : List (List ℕ))
      → length parts ≡ length wqs
      → (all_srcs (queues_of wqs parts) ≡ concat (map (map (λ k. seg (src_page k))) parts))
        × (all_dsts (queues_of wqs parts) ≡ concat (map (map (λ k. seg (dst_page k))) parts))
  unfolding pair_of
  queues_of-tables [] [] h = (refl, refl)
  queues_of-tables [] (part ∷ parts) h = absurd (omega (arith, h))
  queues_of-tables (wq ∷ wqs) [] h = absurd (omega (arith, h))
  queues_of-tables (wq ∷ wqs) (part ∷ parts) h =
      let (srcs, dsts) = queues_of-tables wqs parts (omega (arith, h)) in
      (ap₂ ◌++◌ (map-map seg src_page part) srcs, ap₂ ◌++◌ (map-map seg dst_page part) dsts)

  -- A queue that has one of the parts.
  record OfPart (wqs : List Wq) (parts : List (List ℕ)) (q : Queue) : Type 0 where
    wq : Wq
    part : List ℕ
    in_wqs : Has wq wqs
    in_parts : Has part parts
    same : q ≡ queue_of wq seg (pair_of src_page dst_page nents part)

  queues_of-OfPart :
      (wqs : List Wq) (parts : List (List ℕ)) (q : Queue)
      → Has q (queues_of wqs parts)
      → OfPart wqs parts q
  queues_of-OfPart [] parts q i = elim i [ ]
  queues_of-OfPart (wq ∷ wqs) [] q i = elim i [ ]
  queues_of-OfPart (wq ∷ wqs) (part ∷ parts) q here = record {
    wq = wq;
    part = part;
    in_wqs = here;
    in_parts = here;
    same = refl;
  }
  queues_of-OfPart (wq ∷ wqs) (part ∷ parts) q (there i) =
      let r = queues_of-OfPart wqs parts q i in
      record {
        wq = r.wq;
        part = r.part;
        in_wqs = there r.in_wqs;
        in_parts = there r.in_parts;
        same = r.same;
      }

  queue_of-SameSizes :
      ((page : ℕ) → (seg page).dma_len ≡ page_size)
      → (part : List ℕ) → SameSizes (map seg (map dst_page part)) (map seg (map src_page part))
  queue_of-SameSizes one_page [] = refl
  queue_of-SameSizes one_page (k ∷ part) =
      ap₂ ◌∷◌ (one_page (dst_page k) ∙ sym (one_page (src_page k)))
        (queue_of-SameSizes one_page part)

  queue_of-IsServable :
      (wq : Wq)
      → wq.state ≡ enabled
      → 0 < wq.idxd.max_batch_size
      → (part : List ℕ) → 1 < length part
      → NoSingle (length part) wq.idxd.max_batch_size
      → IsServable (queue_of wq seg (pair_of src_page dst_page nents part))
  unfolding pair_of
  queue_of-IsServable wq on sized part many pairs = record {
    on = on;
    sized = sized;
    many_srcs = rw (length-map seg (map src_page part), length-map src_page part) many;
    many_dsts = rw (length-map seg (map dst_page part), length-map dst_page part) many;
    pairs =
        rw
          (
            length-map seg (map src_page part),
            length-map src_page part,
            length-map seg (map dst_page part),
            length-map dst_page part,
          )
          (let same : common (length part) (length part) ≡ length part = ground arith in
            rw same pairs);
  }

  queues_of-IsServable :
      (n : ℕ) (wqs : List Wq)
      → ((wq : Wq)
          → Has wq wqs
          → (wq.state ≡ enabled) × (0 < wq.idxd.max_batch_size) × NoSingle n wq.idxd.max_batch_size)
      → 1 < n
      → (parts : List (List ℕ)) → ((part : List ℕ) → Has part parts → length part ≡ n)
      → (q : Queue) → Has q (queues_of wqs parts)
      → IsServable q
  queues_of-IsServable n wqs ready many parts whole q i =
      let r = queues_of-OfPart wqs parts q i in
      let (on, sized, pairs) = ready r.wq r.in_wqs in
      rw r.same (
        queue_of-IsServable r.wq on sized r.part (rw (whole r.part r.in_parts) many)
          (rw (whole r.part r.in_parts) pairs))

  queues_of-SameSizes :
      ((page : ℕ) → (seg page).dma_len ≡ page_size)
      → (wqs : List Wq) (parts : List (List ℕ)) (q : Queue) → Has q (queues_of wqs parts)
      → SameSizes q.dsts q.srcs
  unfolding pair_of
  queues_of-SameSizes one_page wqs parts q i =
      let r = queues_of-OfPart wqs parts q i in rw r.same (queue_of-SameSizes one_page r.part)

-- When the driver gives each descriptor, there is a queue, every queue is enabled and takes batches
-- of at least one descriptor, the page order has as many entries as there are pages, the pages of
-- both areas that it names are there, no table fails to be allocated, the tables are filled to the
-- last entry, have more than one and leave no batch of a single entry, each page is mapped to one entry of its size, and the
-- destination pages are apart from the source pages and from each other, then `vmalloc_to_sgtable`
-- makes the tables, `dsa_copy` submits them, and, whatever order the engine carries out the copies
-- in, the pages of the second area hold afterwards what those of the first held.
pub vmalloc_to_sgtable-copies :
    (e : Engine) (m : Memory) (p : ℕ) (wqs : List Wq) (grants : ℕ → ℕ → Grant)
    → ((i j : ℕ) → (d : Desc) × ((grants i j).alloc ≡ some d))
    → ((wq : Wq) → Has wq wqs → (wq.state ≡ enabled) × (0 < wq.idxd.max_batch_size))
    → (to_page : ℕ → Option ℕ) (arr : List ℕ) (npages : ℕ) → length arr ≡ npages
    → 0 < length wqs
    → npages ≡ length wqs * table_nents npages (length wqs)
    → 1 < table_nents npages (length wqs)
    → ((wq : Wq) → Has wq wqs → NoSingle (table_nents npages (length wqs)) wq.idxd.max_batch_size)
    → (alloc_fails : ℕ → Bool) (area1 area2 : ℕ) (src_page dst_page : ℕ → ℕ)
    → ((k : ℕ) → alloc_fails k ≡ false)
    → ((k : ℕ)
        → k < npages
        → to_page (area1 + get_or arr k 0 * page_size) ≡ some (src_page (get_or arr k 0)))
    → ((k : ℕ)
        → k < npages
        → to_page (area2 + get_or arr k 0 * page_size) ≡ some (dst_page (get_or arr k 0)))
    → (seg : ℕ → Seg) → ((page : ℕ) → (seg page).dma_len ≡ page_size)
    → let srcs = map (λ k. seg (src_page k)) arr in
      let dsts = map (λ k. seg (dst_page k)) arr in
      IsApart srcs dsts
      → (tables : List TablePair) × (entries : List DescList) × (lanes : List Lane)
        × (task : TaskPointer) × (vmalloc_to_sgtable alloc_fails to_page area1 area2 arr npages
              (length wqs)
            ≡ some tables)
        × (dispatch p grants (with_tables wqs seg tables) ≡ returns (entries, lanes, task))
        × (area (carry_out e (concat (map (λ l. asked_all l.sent) lanes)) m) dsts ≡ area m srcs)
vmalloc_to_sgtable-copies e m p wqs grants given ready to_page arr npages whole some_wq even many
      pairs alloc_fails area1 area2 src_page dst_page fine src dst seg one_page apart =
    let w = length wqs in
    let n = table_nents npages w in
    let parts = slices w n arr in
    let queues = queues_of seg src_page dst_page n wqs parts in
    let (made, dealt) =
      (vmalloc_to_sgtable-slices to_page arr npages whole alloc_fails area1 area2 src_page dst_page
        w fine src dst some_wq) in
    let (all_src, all_dst) =
      queues_of-tables seg src_page dst_page n wqs parts (length-slices w n arr) in
    let srcs_are : all_srcs queues ≡ map (λ k. seg (src_page k)) arr =
      all_src ∙ map-concat (λ k. seg (src_page k)) parts ∙ ap (map (λ k. seg (src_page k))) dealt in
    let dsts_are : all_dsts queues ≡ map (λ k. seg (dst_page k)) arr =
      all_dst ∙ map-concat (λ k. seg (dst_page k)) parts ∙ ap (map (λ k. seg (dst_page k))) dealt in
    let (entries, lanes, task, ran, copied) =
      dispatch-copies e m p grants given queues
        (queues_of-IsServable seg src_page dst_page n n wqs
          (λ wq i. let (on, sized) = ready wq i in (on, sized, pairs wq i)) many parts
          (λ part i. slices-length w n arr part (whole ∙ even) i))
        (queues_of-SameSizes seg src_page dst_page n one_page wqs parts)
        (rw (srcs_are, dsts_are) apart) in
    (
      map (pair_of src_page dst_page n) parts,
      entries,
      lanes,
      task,
      made,
      ran,
      ap (λ ds. area (carry_out e (concat (map (λ l. asked_all l.sent) lanes)) m) ds) (sym dsts_are)
          ∙ copied
          ∙ ap (area m) srcs_are,
    )
