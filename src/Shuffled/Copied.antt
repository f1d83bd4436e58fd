-- ===== src/Shuffled/Copied.antt =====
-- From the drawn order to the areas as a whole: `random_arr`, `vmalloc_to_sgtable` and `dsa_copy` of
-- DSA_Kernelspace_Test/2.kernel_test_pages_shuffling/kernel_test_sgtable.c together. `seg` is the
-- mapping that `dma_map_sgtable` gives to a page; it merges no pages.
use dsa_test.Base.{
  ℕ, zero, suc, ◌+◌, ◌*◌, ◌≤◌, ◌<◌, ◌≡◌, ◌≢◌, refl, sym, ap, ◌∙◌, false, Option, some, List, [],
  map, length, length-map, get_or, drop, drop-cons, drop-of_length_le, Has, arith, returns, ◌^◌,
}
use dsa_test.Desc.{Desc, Wq, Seg, enabled}
use dsa_test.Desc.Batch.{transfer}
use dsa_test.Shuffle.{random_arr}
use dsa_test.Shuffle.Uniform.{range, random_arr-uniform}
use dsa_test.Shuffle.Entries.{Has-of_count, count_pos, get_or-Has, range-below}
use dsa_test.Single.{page_size}
use dsa_test.Copy.Loop.{Kernel, finished, dsa_copy, poll_retry_max}
use dsa_test.Copy.Loop.Polls.{succeeds_at}
use dsa_test.Engine.{Engine, Memory, carry_out, area, Disjoint, IsApart}
use dsa_test.Engine.Areas.{SameSizes}
use dsa_test.Engine.Pages.{map-map}
use dsa_test.Engine.Singles.{dsa_copy-copies}
use dsa_test.Engine.Whole.{area-order, pages-IsApart}
use dsa_test.Load.Copied.{pages-Fit, same_pages}
use dsa_test.Shuffled.{set_in_order, vmalloc_to_sgtable}

set_in_order-pages :
    (to_page : ℕ → Option ℕ) (area : ℕ) (page : ℕ → ℕ) (arr : List ℕ) (n i : ℕ)
    → i + n ≡ length arr
    → ((k : ℕ)
        → k < length arr
        → to_page (area + get_or arr k 0 * page_size) ≡ some (page (get_or arr k 0)))
    → set_in_order to_page area arr n i ≡ some (map page (drop i arr))
unfolding set_in_order
set_in_order-pages to_page area page arr zero i h there =
    rw (drop-of_length_le i arr (omega arith)) refl
set_in_order-pages to_page area page arr (suc n) i h there =
    let here : i < length arr = omega arith in
    rw (drop-cons i 0 arr here) (
      rw (there i here, set_in_order)
        (rw (set_in_order-pages to_page area page arr n (i + 1) (omega arith) there) refl))

tables-pages :
    (to_page : ℕ → Option ℕ) (area1 area2 : ℕ) (src_page dst_page : ℕ → ℕ) (arr : List ℕ)
    → ((k : ℕ)
        → k < length arr
        → to_page (area1 + get_or arr k 0 * page_size) ≡ some (src_page (get_or arr k 0)))
    → ((k : ℕ)
        → k < length arr
        → to_page (area2 + get_or arr k 0 * page_size) ≡ some (dst_page (get_or arr k 0)))
    → vmalloc_to_sgtable false false to_page area1 area2 arr (length arr)
      ≡ (map src_page arr, map dst_page arr)
unfolding vmalloc_to_sgtable
tables-pages to_page area1 area2 src_page dst_page arr src dst =
    rw
      (
        set_in_order-pages to_page area1 src_page arr (length arr) 0 (omega arith) src,
        set_in_order-pages to_page area2 dst_page arr (length arr) 0 (omega arith) dst,
      )
      refl

-- When no allocation fails, all pages of both areas are there, each is mapped to one entry of its size,
-- and the destination pages are apart from the source pages and from each other, then, whatever
-- numbers `random_arr` draws, the tables hold one entry for each page, of its size, and are apart, and
-- when their pages have been copied, so has the area as a whole.
pub drawn_tables :
    (to_page : ℕ → Option ℕ) (draws : ℕ → ℕ) (kmalloced : List ℕ) (npages area1 area2 : ℕ)
    → length kmalloced ≡ npages
    → (src_page dst_page : ℕ → ℕ)
    → ((k : ℕ) → k < npages → to_page (area1 + k * page_size) ≡ some (src_page k))
    → ((k : ℕ) → k < npages → to_page (area2 + k * page_size) ≡ some (dst_page k))
    → (seg : ℕ → Seg) → ((page : ℕ) → (seg page).dma_len ≡ page_size)
    → ((k j : ℕ) → k < npages → j < npages → Disjoint (seg (dst_page k)) (seg (src_page j)))
    → ((k j : ℕ) → k < npages → j < npages → k ≢ j → Disjoint (seg (dst_page k)) (seg (dst_page j)))
    → let arr = random_arr draws npages kmalloced in
      (vmalloc_to_sgtable false false to_page area1 area2 arr npages
        ≡ (map src_page arr, map dst_page arr))
      × ((page : ℕ → ℕ) → length (map seg (map page arr)) ≡ npages)
      × SameSizes (map seg (map dst_page arr)) (map seg (map src_page arr))
      × IsApart (map seg (map src_page arr)) (map seg (map dst_page arr))
      × ((m m' : Memory)
          → area m' (map seg (map dst_page arr)) ≡ area m (map seg (map src_page arr))
          → area m' (map (λ k. seg (dst_page k)) (range 0 npages))
            ≡ area m (map (λ k. seg (src_page k)) (range 0 npages)))
drawn_tables to_page draws kmalloced npages area1 area2 size src_page dst_page src dst seg one_page
      from_srcs from_dsts =
    let arr = random_arr draws npages kmalloced in
    let (whole, counts) = random_arr-uniform draws npages kmalloced size in
    let below : (k : ℕ) → Has k arr → k < npages =
      λ k i. ground (arith, counts k, count_pos k arr i) in
    let in_order : (k : ℕ) → k < length arr → get_or arr k 0 < npages =
      λ k h. below (get_or arr k 0) (get_or-Has arr k h) in
    let apart =
      pages-IsApart (λ k. seg (dst_page k)) (λ k. seg (src_page k)) npages from_srcs from_dsts arr
        arr below below (λ k. ground (arith, counts k)) in
    (
      ap (vmalloc_to_sgtable false false to_page area1 area2 arr) (sym whole)
          ∙ tables-pages to_page area1 area2 src_page dst_page arr
              (λ k h. src (get_or arr k 0) (in_order k h))
              (λ k h. dst (get_or arr k 0) (in_order k h)),
      λ page. length-map seg (map page arr) ∙ length-map page arr ∙ whole,
      same_pages seg one_page (map dst_page arr) (map src_page arr)
          (length-map dst_page arr ∙ sym (length-map src_page arr)),
      rw (map-map seg src_page arr, map-map seg dst_page arr) apart,
      λ m m' copied.
          area-order m m' (λ k. seg (dst_page k)) (λ k. seg (src_page k))
            (λ k. one_page (dst_page k) ∙ sym (one_page (src_page k))) arr (range 0 npages)
            (λ k i. Has-of_count k arr (ground (arith, counts k, range-below k 0 npages i)))
            (ap (area m') (sym (map-map seg dst_page arr))
              ∙ copied
              ∙ ap (area m) (map-map seg src_page arr)),
    )

-- When no allocation fails, all pages of both areas are there, each is mapped to one entry of its size,
-- which the device takes, the destination pages are apart from the source pages and from each other,
-- and there are more than one; when the queue is enabled, the driver has a descriptor for every entry,
-- refuses none, and every record shows success before the polls of its round run out; then, whatever
-- numbers `random_arr` draws, `dsa_copy` of the tables in its order ends with no entry left, and,
-- whatever order the engine carries out the copies in, the second area as a whole holds afterwards
-- what the first held.
pub shuffled-copies :
    (e : Engine) (m : Memory) (os : Kernel) (wq : Wq) (finish : ℕ → ℕ)
    → wq.state ≡ enabled
    → wq.idxd.max_xfer_bytes < 2 ^ 32
    → ((i : ℕ) → (d : Desc) × (os.alloc i ≡ some d))
    → ((k : ℕ) → os.refuses k ≡ false)
    → ((i : ℕ) → finish i < poll_retry_max)
    → ((loop : ℕ) → os.status loop ≡ succeeds_at finish)
    → 0 < wq.num_descs
    → page_size ≤ wq.idxd.max_xfer_bytes
    → (to_page : ℕ → Option ℕ) (draws : ℕ → ℕ) (kmalloced : List ℕ) (npages area1 area2 : ℕ)
    → length kmalloced ≡ npages
    → 1 < npages
    → (src_page dst_page : ℕ → ℕ)
    → ((k : ℕ) → k < npages → to_page (area1 + k * page_size) ≡ some (src_page k))
    → ((k : ℕ) → k < npages → to_page (area2 + k * page_size) ≡ some (dst_page k))
    → (seg : ℕ → Seg) → ((page : ℕ) → (seg page).dma_len ≡ page_size)
    → ((k j : ℕ) → k < npages → j < npages → Disjoint (seg (dst_page k)) (seg (src_page j)))
    → ((k j : ℕ) → k < npages → j < npages → k ≢ j → Disjoint (seg (dst_page k)) (seg (dst_page j)))
    → let arr = random_arr draws npages kmalloced in
      let tables = vmalloc_to_sgtable false false to_page area1 area2 arr npages in
      (log : List Desc) × (poll : ℕ) × (dsa_copy os wq (map seg tables.0) (map seg tables.1)
        ≡ returns (finished log [] poll))
      × (area
            (carry_out e (map (λ d. transfer d.hw) log) m)
            (map (λ k. seg (dst_page k)) (range 0 npages))
          ≡ area m (map (λ k. seg (src_page k)) (range 0 npages)))
shuffled-copies e m os wq finish on small given willing soon shown sized fits to_page draws
      kmalloced npages area1 area2 size many src_page dst_page src dst seg one_page from_srcs
      from_dsts =
    let arr = random_arr draws npages kmalloced in
    let (made, long, same, apart, whole_area) =
      drawn_tables to_page draws kmalloced npages area1 area2 size src_page dst_page src dst seg
        one_page from_srcs from_dsts in
    let (log, poll, ran, copied) =
      dsa_copy-copies e m os wq finish on small given willing soon shown sized
        (map seg (map src_page arr)) (map seg (map dst_page arr))
        (omega (arith, long src_page, many)) (omega (arith, long dst_page, many))
        (pages-Fit seg one_page wq.idxd.max_xfer_bytes fits (map dst_page arr)) same apart in
    (log, poll, rw made ran, whole_area m (carry_out e (map (λ d. transfer d.hw) log) m) copied)
