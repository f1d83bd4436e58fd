-- ===== src/Load/Copied.antt =====
-- A load of DSA_Kernelspace_Test/1.kernel_test/kernel_test_sgtable.c in which no call fails, from
-- `vmalloc` to the copy of the engine. `seg` is the mapping that `dma_map_sgtable` gives to a page; it
-- merges no pages.
use dsa_test.Base.{
  ℕ, ◌+◌, ◌<◌, ◌≤◌, ◌≡◌, refl, ap, ap₂, ◌∙◌, sym, true, false, some, List, [], ◌∷◌, map, length,
  arith, get_elem?, get_or, pos, returns, ◌>>=◌, ◌^◌, length-map, suc, zero,
}
use dsa_test.Desc.{Desc, Wq, Seg, enabled}
use dsa_test.Desc.Batch.{transfer}
use dsa_test.Setup.{allocated, any_null}
use dsa_test.Probe.{IdxdWq, dsa_list, dsa_num, wq_num}
use dsa_test.Probe.Channel.{init_dsa-dmaengine, take_channel-given}
use dsa_test.Single.{page_size}
use dsa_test.Single.Freed.{pages_of, single_tables-pages, test-kept}
use dsa_test.Copy.Loop.{finished, dsa_copy, poll_retry_max}
use dsa_test.Copy.Loop.Polls.{succeeds_at}
use dsa_test.Copy.Loop.Success.{Fit}
use dsa_test.Engine.{Engine, Memory, carry_out, area, IsApart}
use dsa_test.Engine.Areas.{SameSizes}
use dsa_test.Engine.Singles.{dsa_copy-copies}
use dsa_test.Load.{
  Os, Held, run_test, make_tables, sgtable_to_dma_map, after_copy, entries_of, copy, my_init,
}
use dsa_test.Load.Stages.{allotted, my_init-channel, ready, after_dsa-ready}

length-pages_of : (page : ℕ → ℕ) (area n i : ℕ) → length (pages_of page area n i) ≡ n
length-pages_of page area zero i = refl
length-pages_of page area (suc n) i = ap suc (length-pages_of page area n (i + 1))

module _ (seg : ℕ → Seg) (one_page : (page : ℕ) → (seg page).dma_len ≡ page_size) where
  pub pages-Fit : (max : ℕ) → page_size ≤ max → (pages : List ℕ) → Fit max (map seg pages)
  pages-Fit max h [] = tt
  pages-Fit max h (p ∷ pages) = (omega (arith, one_page p, h), pages-Fit max h pages)

  pub same_pages : (ps qs : List ℕ) → length ps ≡ length qs → SameSizes (map seg ps) (map seg qs)
  same_pages [] [] h = refl
  same_pages [] (q ∷ qs) h = absurd (omega arith)
  same_pages (p ∷ ps) [] h = absurd (omega arith)
  same_pages (p ∷ ps) (q ∷ qs) h =
      ap₂ ◌∷◌ (one_page p ∙ sym (one_page q)) (same_pages ps qs (omega (arith, h)))

module _ (os : Os) (page : ℕ → ℕ) (there : (a : ℕ) → os.to_page a ≡ some (page a))
    (allocates : (k : ℕ) → os.alloc_fails k ≡ false) (maps : (k : ℕ) → os.map_fails k ≡ false) where
  -- The pages of area `i`.
  abbrev pub area_pages : ℕ → List ℕ
  area_pages i = pages_of page (get_or (allocated os.vmallocs) i 0) os.npages 0

  run_test-kept :
      (s : Held) → run_test os s ≡ record s { structs = 2; test_tables = true; test_mapped = false }
  unfolding run_test
  run_test-kept s =
      rw (allocates 3, allocates 4, maps 3, maps 4)
        (rw (test-kept os.to_page page (get_or s.areas 4 0) (get_or s.areas 5 0) os.npages there)
          refl)

  make_tables-pages :
      (s : Held)
      → s.areas ≡ allocated os.vmallocs
      → make_tables os s ≡ record s { structs = 4; sgt1 = area_pages 0; sgt2 = area_pages 1 }
  unfolding make_tables
  make_tables-pages s held =
      rw (allocates 1, allocates 2)
        (rw
          (single_tables-pages os.to_page page (get_or s.areas 0 0) (get_or s.areas 1 0) os.npages
            there)
          (rw held refl))

  both_mapped : (s : Held) → sgtable_to_dma_map os s ≡ record s { mapped1 = true; mapped2 = true }
  unfolding sgtable_to_dma_map
  both_mapped s = rw (maps 1, maps 2) refl

  ready-mapped :
      (s : Held)
      → s.areas ≡ allocated os.vmallocs
      → ready os s ≡ record s {
        structs = 4;
        test_tables = true;
        test_mapped = false;
        sgt1 = area_pages 0;
        sgt2 = area_pages 1;
        mapped1 = true;
        mapped2 = true;
      }
  unfolding ready
  ready-mapped s held =
      let tested = record s { structs = 2; test_tables = true; test_mapped = false } in
      let made = record tested { structs = 4; sgt1 = area_pages 0; sgt2 = area_pages 1 } in
      ap (λ t. sgtable_to_dma_map os (make_tables os t)) (run_test-kept s)
      ∙ ap (sgtable_to_dma_map os) (make_tables-pages tested held)
      ∙ both_mapped made

-- The copy of two mapped tables, and the end of `my_init`
copy-mapped :
    (os : Os) (s : Held) (c : IdxdWq) (log : List Desc) (poll : ℕ)
    → s.chan ≡ some c
    → s.mapped1 ≡ true
    → s.mapped2 ≡ true
    → dsa_copy os.copies (os.queue c) (os.mapped s.sgt1) (os.mapped s.sgt2)
      ≡ returns (finished log [] poll)
    → copy os s ≡ returns (after_copy (finished log [] poll) s)
unfolding copy entries_of
copy-mapped os s c log poll given m1 m2 ran = rw (given, m1, m2) (rw ran refl)

module _ (e : Engine) (m : Memory) (os : Os) (page : ℕ → ℕ) (seg : ℕ → Seg) (wqs : List IdxdWq)
    (w : IdxdWq) (wq : Wq) (finish : ℕ → ℕ) where
  -- When every `vmalloc`, `sg_alloc_table` and mapping succeeds, every address has its page, and a
  -- page is mapped to one entry of its size, which the device takes; when there are enough devices,
  -- and the second queue of the third one is an enabled dmaengine queue whose channel is given; when
  -- the driver has a descriptor for every entry, refuses none, and every record shows success before
  -- the polls of its round run out; and when the pages of the second area are apart from those of
  -- the first and from each other, and there are more than one, then `my_init` returns 0, its copy
  -- ends with no entry left, and, whatever order the engine carries out the copies in, the pages of
  -- the second area hold what those of the first held.
  pub load-copies :
      any_null os.vmallocs ≡ false
      → ((a : ℕ) → os.to_page a ≡ some (page a))
      → ((k : ℕ) → os.alloc_fails k ≡ false)
      → ((k : ℕ) → os.map_fails k ≡ false)
      → ((pages : List ℕ) → os.mapped pages ≡ map seg pages)
      → ((p : ℕ) → (seg p).dma_len ≡ page_size)
      → 1 < os.npages
      → dsa_list ≤ length os.devices
      → get_elem? os.devices dsa_num ≡ some (some wqs)
      → get_elem? wqs wq_num ≡ some w
      → w.enabled ≡ true
      → w.dmaengine ≡ true
      → ((v : IdxdWq) → os.get_channel v ≡ true)
      → ((n : ℕ) → os.queue (record w { client_count = n }) ≡ wq)
      → wq.state ≡ enabled
      → page_size ≤ wq.idxd.max_xfer_bytes
      → wq.idxd.max_xfer_bytes < 2 ^ 32
      → 0 < wq.num_descs
      → ((i : ℕ) → (d : Desc) × (os.copies.alloc i ≡ some d))
      → ((k : ℕ) → os.copies.refuses k ≡ false)
      → ((i : ℕ) → finish i < poll_retry_max)
      → ((loop : ℕ) → os.copies.status loop ≡ succeeds_at finish)
      → let pages_at : ℕ → List Seg =
          λ i. map seg (pages_of page (get_or (allocated os.vmallocs) i 0) os.npages 0) in
        IsApart (pages_at 0) (pages_at 1)
        → (s : Held) × (log : List Desc) × (poll : ℕ) × (my_init os ≡ returns (pos 0, s))
          × (s.copied ≡ some (finished log [] poll))
          × (area (carry_out e (map (λ d. transfer d.hw) log) m) (pages_at 1) ≡ area m (pages_at 0))
  unfolding after_copy
  load-copies areas there allocates maps mapped one_page many enough device queue on dma given view
        enabled_wq fits small sized descs willing soon shown apart =
      let (n, taken, left) = take_channel-given os.get_channel w given in
      let c = record w { client_count = n } in
      let found =
        init_dsa-dmaengine os.get_channel os.devices wqs w enough device queue on dma
        ∙ ap (λ o. returns (pos 0, o)) taken in
      let s0 = record (allotted os) { chan = some c } in
      let pages : ℕ → List ℕ =
        λ i. pages_of page (get_or (allocated os.vmallocs) i 0) os.npages 0 in
      let long : (i : ℕ) → length (map seg (pages i)) ≡ os.npages = λ i.
        length-map seg (pages i)
        ∙ length-pages_of page (get_or (allocated os.vmallocs) i 0) os.npages 0 in
      let (log, poll, ran, copied) =
        dsa_copy-copies e m os.copies wq finish enabled_wq small descs willing soon shown sized
          (map seg (pages 0)) (map seg (pages 1)) (omega (arith, long 0, many))
          (omega (arith, long 1, many))
          (pages-Fit seg one_page wq.idxd.max_xfer_bytes fits (pages 1))
          (same_pages seg one_page (pages 1) (pages 0)
            (omega (arith, long 0, long 1, length-map seg (pages 0), length-map seg (pages 1))))
          apart in
      let s1 = record s0 {
        structs = 4;
        test_tables = true;
        test_mapped = false;
        sgt1 = pages 0;
        sgt2 = pages 1;
        mapped1 = true;
        mapped2 = true;
      } in
      let copy_ran : dsa_copy os.copies (os.queue c) (os.mapped (pages 0)) (os.mapped (pages 1))
          ≡ returns (finished log [] poll) =
        rw (view n, mapped (pages 0), mapped (pages 1)) ran in
      (
        after_copy (finished log [] poll) s1,
        log,
        poll,
        my_init-channel os (some c) areas found
            ∙ after_dsa-ready os s0
            ∙ ap (λ s. copy os s >>= λ s'. returns (pos 0, s'))
                (ready-mapped os page there allocates maps s0 refl)
            ∙ ap (λ o. o >>= λ s'. returns (pos 0, s'))
                (copy-mapped os s1 c log poll refl refl refl copy_ran),
        refl,
        copied,
      )
