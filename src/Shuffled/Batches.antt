-- ===== src/Shuffled/Batches.antt =====
-- `random_arr`, `vmalloc_to_sgtable` and `dsa_copy` of
-- DSA_Kernelspace_Test/2.kernel_test_pages_shuffling/kernel_test_sgtable_batch.c together. The first two
-- are those of kernel_test_sgtable.c there, `dsa_copy` is that of
-- DSA_Kernelspace_Test/1.kernel_test/kernel_test_sgtable_batch.c. `seg` is the mapping that
-- `dma_map_sgtable` gives to a page; it merges no pages.
use dsa_test.Base.{
  ℕ, ◌+◌, ◌*◌, ◌<◌, ◌≡◌, ◌≢◌, false, Bool, Option, some, List, [], map, length, arith, returns,
}
use dsa_test.Desc.{Desc, Wq, Seg, Grant, DescList, enabled}
use dsa_test.Shuffle.{random_arr}
use dsa_test.Shuffle.Uniform.{range}
use dsa_test.Single.{page_size}
use dsa_test.Copy.{batch_lists}
use dsa_test.Copy.Cuts.{NoSingle, common}
use dsa_test.Copy.Batches.{asked_all}
use dsa_test.Copy.Loop.{poll_retry_max}
use dsa_test.Copy.Loop.Polls.{succeeds_at}
use dsa_test.Copy.Finish.{SgTables, released, finished, dsa_copy}
use dsa_test.Engine.{Engine, Memory, carry_out, area, Disjoint}
use dsa_test.Engine.Copied.{copy_entries-copies}
use dsa_test.Shuffled.{vmalloc_to_sgtable}
use dsa_test.Shuffled.Copied.{drawn_tables}

-- When the queue is enabled and takes batches of at least one descriptor, the driver has a descriptor
-- for every batch, refuses none, and every record shows success before the polls run out; when no
-- allocation fails, all pages of both areas are there, each is mapped to one entry of its size, the
-- destination pages are apart from the source pages and from each other, and there are more than
-- one, which leave no batch of a single entry; then, whatever numbers `random_arr` draws, `dsa_copy` submits batches of the tables in its
-- order and ends with none left and both tables unmapped and freed, and, whatever order the engine carries out their copies in, the
-- second area as a whole holds afterwards what the first held.
pub shuffled_batches-copies :
    (e : Engine) (m : Memory) (p : ℕ) (wq : Wq) (grants : ℕ → Grant) (refuses : ℕ → Bool)
    (finish : ℕ → ℕ) (held : SgTables)
    → wq.state ≡ enabled
    → ((i : ℕ) → (d : Desc) × ((grants i).alloc ≡ some d))
    → ((k : ℕ) → refuses k ≡ false)
    → ((k : ℕ) → finish k < poll_retry_max)
    → 0 < wq.idxd.max_batch_size
    → (to_page : ℕ → Option ℕ) (draws : ℕ → ℕ) (kmalloced : List ℕ) (npages area1 area2 : ℕ)
    → length kmalloced ≡ npages
    → 1 < npages
    → NoSingle npages wq.idxd.max_batch_size
    → (src_page dst_page : ℕ → ℕ)
    → ((k : ℕ) → k < npages → to_page (area1 + k * page_size) ≡ some (src_page k))
    → ((k : ℕ) → k < npages → to_page (area2 + k * page_size) ≡ some (dst_page k))
    → (seg : ℕ → Seg) → ((page : ℕ) → (seg page).dma_len ≡ page_size)
    → ((k j : ℕ) → k < npages → j < npages → Disjoint (seg (dst_page k)) (seg (src_page j)))
    → ((k j : ℕ) → k < npages → j < npages → k ≢ j → Disjoint (seg (dst_page k)) (seg (dst_page j)))
    → let tables =
        vmalloc_to_sgtable false false to_page area1 area2
          (random_arr draws npages kmalloced)
          npages in
      let srcs = map seg tables.0 in
      let dsts = map seg tables.1 in
      (ls : List DescList) × (done : List ℕ) × (poll : ℕ) × (batch_lists p wq grants
          (length srcs)
          (length dsts)
          srcs
          dsts
        ≡ returns ls)
      × (dsa_copy p wq grants refuses
            (succeeds_at finish)
            held
            (length srcs)
            (length dsts)
            srcs
            dsts
          ≡ returns (finished [] done poll released))
      × (area (carry_out e (asked_all ls) m) (map (λ k. seg (dst_page k)) (range 0 npages))
          ≡ area m (map (λ k. seg (src_page k)) (range 0 npages)))
shuffled_batches-copies e m p wq grants refuses finish held on given willing soon sized to_page
      draws kmalloced npages area1 area2 size many pairs src_page dst_page src dst seg one_page
      from_srcs from_dsts =
    let arr = random_arr draws npages kmalloced in
    let (made, long, same, apart, whole_area) =
      drawn_tables to_page draws kmalloced npages area1 area2 size src_page dst_page src dst seg
        one_page from_srcs from_dsts in
    let (ls, done, poll, batched, ran, copied) =
      copy_entries-copies e m p wq grants refuses finish held on given willing soon sized
        (map seg (map src_page arr)) (map seg (map dst_page arr))
        (omega (arith, long src_page, many)) (omega (arith, long dst_page, many))
        (rw (long src_page, long dst_page)
          (let both : common npages npages ≡ npages = ground arith in rw both pairs))
        same apart in
    (
      ls,
      done,
      poll,
      rw made batched,
      rw made ran,
      whole_area m (carry_out e (asked_all ls) m) copied,
    )
