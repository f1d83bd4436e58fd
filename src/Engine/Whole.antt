-- ===== src/Engine/Whole.antt =====
-- The areas as a whole, which the test compares in the end: `random_arr`, `vmalloc_to_sgtable` and
-- `dsa_copy` of DSA_Kernelspace_Test/3.kernel_test_N_DSAs/kernel_test_sgtable_batch.c together.
-- `range 0 npages` is the order of the pages in memory.
use dsa_test.Base.{
  ℕ, zero, suc, ◌+◌, ◌*◌, ◌≤◌, ◌<◌, ◌≡◌, ◌≢◌, refl, sym, ap, ap₂, ◌∙◌, some, List, [], ◌∷◌, ◌++◌,
  map, length, concat, get_or, Has, here, there, arith, returns, Bool, false, Option,
}
use dsa_test.Desc.{Desc, Wq, Seg, Grant, DescList, enabled}
use dsa_test.Copy.Cuts.{NoSingle}
use dsa_test.Copy.Batches.{asked_all}
use dsa_test.Shuffle.{random_arr}
use dsa_test.Shuffle.Uniform.{count, one, range, random_arr-uniform}
use dsa_test.Shuffle.Entries.{Has-of_count, count_pos, count_once, get_or-Has, range-below}
use dsa_test.Tables.{TablePair, page_size, table_nents, vmalloc_to_sgtable}
use dsa_test.Dispatch.{Lane, TaskPointer, dispatch}
use dsa_test.Engine.{
  Engine, Memory, carry_out, bytes, area, Disjoint, IsApart, apart_nil, apart_cons,
}
use dsa_test.Engine.Pages.{with_tables, vmalloc_to_sgtable-copies}

length-bytes : (m : Memory) (a n : ℕ) → length (bytes m a n) ≡ n
unfolding bytes
length-bytes m a zero = refl
length-bytes m a (suc n) = ap suc (length-bytes m (a + 1) n)

append-split :
    (xs ys zs ws : List ℕ) → length xs ≡ length ys → xs ++ zs ≡ ys ++ ws → (xs ≡ ys) × (zs ≡ ws)
append-split [] [] zs ws h e = (refl, e)
append-split [] (y ∷ ys) zs ws h e = absurd (omega arith)
append-split (x ∷ xs) [] zs ws h e = absurd (omega arith)
append-split (x ∷ xs) (y ∷ ys) zs ws h e =
    let first : x ≡ y = cc in
    let (same, rest) = append-split xs ys zs ws (omega arith) cc in (ap₂ ◌∷◌ first same, rest)

module _ (m m' : Memory) (dst src : ℕ → Seg)
    (one_size : (k : ℕ) → (dst k).dma_len ≡ (src k).dma_len) where
  -- The page with number `k` has been copied.
  abbrev Copied : ℕ → Type 0
  Copied k =
      bytes m' (dst k).dma_address (dst k).dma_len ≡ bytes m (src k).dma_address (src k).dma_len

  area-cons :
      (x : ℕ) (ks : List ℕ)
      → area m' (map dst (x ∷ ks)) ≡ area m (map src (x ∷ ks))
      → Copied x × (area m' (map dst ks) ≡ area m (map src ks))
  unfolding area
  area-cons x ks e =
      append-split _ _ _ _
        (length-bytes m' (dst x).dma_address (dst x).dma_len
          ∙ one_size x
          ∙ sym (length-bytes m (src x).dma_address (src x).dma_len))
        e

  area-pages :
      (ks : List ℕ) → area m' (map dst ks) ≡ area m (map src ks) → (k : ℕ) → Has k ks → Copied k
  area-pages [] e k i = elim i [ ]
  area-pages (x ∷ ks) e k here = (area-cons x ks e).0
  area-pages (x ∷ ks) e k (there i) = area-pages ks ((area-cons x ks e).1) k i

  pages-area :
      (ks : List ℕ) → ((k : ℕ) → Has k ks → Copied k) → area m' (map dst ks) ≡ area m (map src ks)
  unfolding area
  pages-area [] h = refl
  pages-area (k ∷ ks) h = ap₂ ◌++◌ (h k here) (pages-area ks (λ j i. h j (there i)))

  -- The same pages in another order
  pub area-order :
      (ks js : List ℕ)
      → ((k : ℕ) → Has k js → Has k ks)
      → area m' (map dst ks) ≡ area m (map src ks)
      → area m' (map dst js) ≡ area m (map src js)
  area-order ks js h e = pages-area js (λ k i. area-pages ks e k (h k i))

module _ (dst src : ℕ → Seg) (npages : ℕ)
    (from_srcs : (k j : ℕ) → k < npages → j < npages → Disjoint (dst k) (src j))
    (from_dsts : (k j : ℕ) → k < npages → j < npages → k ≢ j → Disjoint (dst k) (dst j)) where
  mapped_from :
      {A : Type 0} (f : ℕ → A) (ks : List ℕ) {y : A}
      → Has y (map f ks)
      → (k : ℕ) × Has k ks × (y ≡ f k)
  mapped_from f [] i = elim i [ ]
  mapped_from f (k ∷ ks) here = (k, here, refl)
  mapped_from f (k ∷ ks) (there i) = let (j, h, e) = mapped_from f ks i in (j, there h, e)

  pub pages-IsApart :
      (all ks : List ℕ)
      → ((k : ℕ) → Has k all → k < npages)
      → ((k : ℕ) → Has k ks → k < npages)
      → ((k : ℕ) → count k ks ≤ 1)
      → IsApart (map src all) (map dst ks)
  unfolding count one
  pages-IsApart all [] below_all below single = apart_nil
  pages-IsApart all (x ∷ ks) below_all below single =
      apart_cons
        (λ s i.
          let (j, h, e) = mapped_from src all i in
          rw e (from_srcs x j (below x here) (below_all j h)))
        (λ d i.
          let (j, h, e) = mapped_from dst ks i in
          rw e (from_dsts x j (below x here) (below j (there h)) (count_once x j ks (single x) h)))
        (pages-IsApart all ks below_all (λ k i. below k (there i)) (λ k. omega (arith, single k)))

-- When the driver gives each descriptor, there is a queue, every queue is enabled and takes batches of
-- at least one descriptor, all pages of both areas are there, no table fails to be allocated, the
-- tables are filled to the last entry, have more than one and leave no batch of a single entry, each
-- page is mapped to one entry of its
-- size, and the destination pages are apart from the source pages and from each other, then, whatever
-- numbers `random_arr` draws, `vmalloc_to_sgtable` makes tables in its order, `dsa_copy` submits
-- them, and, whatever order the engine carries out the copies in, the second area as a whole holds
-- afterwards what the first held.
pub random_arr-copies :
    (e : Engine) (m : Memory) (p : ℕ) (wqs : List Wq) (grants : ℕ → ℕ → Grant)
    → ((i j : ℕ) → (d : Desc) × ((grants i j).alloc ≡ some d))
    → ((wq : Wq) → Has wq wqs → (wq.state ≡ enabled) × (0 < wq.idxd.max_batch_size))
    → (to_page : ℕ → Option ℕ) (draws : ℕ → ℕ) (kmalloced : List ℕ) (npages : ℕ)
    → length kmalloced ≡ npages
    → 0 < length wqs
    → npages ≡ length wqs * table_nents npages (length wqs)
    → 1 < table_nents npages (length wqs)
    → ((wq : Wq) → Has wq wqs → NoSingle (table_nents npages (length wqs)) wq.idxd.max_batch_size)
    → (alloc_fails : ℕ → Bool) (area1 area2 : ℕ) (src_page dst_page : ℕ → ℕ)
    → ((k : ℕ) → alloc_fails k ≡ false)
    → ((k : ℕ) → k < npages → to_page (area1 + k * page_size) ≡ some (src_page k))
    → ((k : ℕ) → k < npages → to_page (area2 + k * page_size) ≡ some (dst_page k))
    → (seg : ℕ → Seg) → ((page : ℕ) → (seg page).dma_len ≡ page_size)
    → ((k j : ℕ) → k < npages → j < npages → Disjoint (seg (dst_page k)) (seg (src_page j)))
    → ((k j : ℕ) → k < npages → j < npages → k ≢ j → Disjoint (seg (dst_page k)) (seg (dst_page j)))
    → let arr = random_arr draws npages kmalloced in
      (tables : List TablePair) × (entries : List DescList) × (lanes : List Lane)
      × (task : TaskPointer) × (vmalloc_to_sgtable alloc_fails to_page area1 area2 arr npages
            (length wqs)
          ≡ some tables)
      × (dispatch p grants (with_tables wqs seg tables) ≡ returns (entries, lanes, task))
      × (area
            (carry_out e (concat (map (λ l. asked_all l.sent) lanes)) m)
            (map (λ k. seg (dst_page k)) (range 0 npages))
          ≡ area m (map (λ k. seg (src_page k)) (range 0 npages)))
random_arr-copies e m p wqs grants given ready to_page draws kmalloced npages size some_wq even many
      pairs alloc_fails area1 area2 src_page dst_page fine src dst seg one_page from_srcs
      from_dsts =
    let arr = random_arr draws npages kmalloced in
    let (whole, counts) = random_arr-uniform draws npages kmalloced size in
    let below : (k : ℕ) → Has k arr → k < npages =
      λ k i. ground (arith, counts k, count_pos k arr i) in
    let in_order : (k : ℕ) → k < npages → get_or arr k 0 < npages =
      λ k h. below (get_or arr k 0) (get_or-Has arr k (omega (arith, whole))) in
    let apart =
      pages-IsApart (λ k. seg (dst_page k)) (λ k. seg (src_page k)) npages from_srcs from_dsts arr
        arr below below (λ k. ground (arith, counts k)) in
    let (tables, entries, lanes, task, made, ran, copied) =
      vmalloc_to_sgtable-copies e m p wqs grants given ready to_page arr npages whole some_wq even
        many pairs alloc_fails area1 area2 src_page dst_page fine
        (λ k h. src (get_or arr k 0) (in_order k h)) (λ k h. dst (get_or arr k 0) (in_order k h))
        seg one_page apart in
    (
      tables,
      entries,
      lanes,
      task,
      made,
      ran,
      area-order m (carry_out e (concat (map (λ l. asked_all l.sent) lanes)) m)
          (λ k. seg (dst_page k)) (λ k. seg (src_page k))
          (λ k. one_page (dst_page k) ∙ sym (one_page (src_page k))) arr (range 0 npages)
          (λ k i. Has-of_count k arr (ground (arith, counts k, range-below k 0 npages i))) copied,
    )
