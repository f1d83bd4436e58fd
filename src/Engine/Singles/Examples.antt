-- ===== src/Engine/Singles/Examples.antt =====
-- Two pages, one descriptor for each.
use dsa_test.Base.{
  ℕ, ◌≡◌, ◌≤◌, refl, inl, inr, true, some, List, [], ◌∷◌, map, concat, arith, returns, Has, here,
  there,
}
use dsa_test.Desc.{Desc, Wq, Seg, Grant, DescList, zeroed, enabled}
use dsa_test.Copy.Batches.{asked_all}
use dsa_test.Dispatch.{Queue, Lane}
use dsa_test.Dispatch.Singles.{dispatch_singles}
use dsa_test.Dispatch.Singles.Served.{TakesSingles}
use dsa_test.Engine.{carry_out, area, Disjoint, IsApart, apart_nil, apart_cons}
use dsa_test.Engine.Bytes.{byte_engine, counting}
use dsa_test.Engine.Areas.{SameSizes}
use dsa_test.Engine.Copied.{all_dsts, all_srcs}
use dsa_test.Engine.Singles.{dispatch_singles-copies}

abbrev a_wq : Wq
a_wq = record {
  state = enabled;
  num_descs = 1;
  idxd = record {
    max_xfer_bytes = 4096;
    max_batch_size = 2;
    compl_size = 32;
    pasid_enabled = true;
    pasid = 5;
  };
}

abbrev seg : ℕ → Seg
seg a = record { dma_address = a; dma_len = 4096 }

abbrev srcs : List Seg
srcs = seg 0x10000 ∷ seg 0x20000 ∷ []

abbrev dsts : List Seg
dsts = seg 0x50000 ∷ seg 0x60000 ∷ []

abbrev queues : List Queue
queues = record { wq = a_wq; srcs = srcs; dsts = dsts } ∷ []

apart_from_srcs : (a : ℕ) → 0x30000 ≤ a → (s : Seg) → Has s srcs → Disjoint (seg a) s
apart_from_srcs a h s here = inr (omega arith)
apart_from_srcs a h s (there here) = inr (omega arith)
apart_from_srcs a h s (there (there i)) = elim i [ ]

apart_from_dst : (d : Seg) → Has d (seg 0x60000 ∷ []) → Disjoint (seg 0x50000) d
apart_from_dst d here = inl (omega arith)
apart_from_dst d (there i) = elim i [ ]

no_dst : (d : Seg) → Has d [] → Disjoint (seg 0x60000) d
no_dst d i = elim i [ ]

two_pages-IsApart : IsApart srcs dsts
two_pages-IsApart =
    apart_cons (apart_from_srcs 0x50000 (omega arith)) apart_from_dst
      (apart_cons (apart_from_srcs 0x60000 (omega arith)) no_dst apart_nil)

abbrev a_desc : ℕ → Desc
a_desc i = record { id = i; hw = zeroed; compl_dma = 0x700; txd_flags = 0 }

abbrev grants : ℕ → Grant
grants i = record { alloc = some (a_desc i); compls_addr = 0x1000; hw_descs_addr = 0x2000 }

queues-TakesSingles : (q : Queue) → Has q queues → TakesSingles q
queues-TakesSingles q here = record {
  on = refl;
  small = omega arith;
  fit = (omega arith, (omega arith, tt));
}
queues-TakesSingles q (there i) = elim i [ ]

queues-SameSizes : (q : Queue) → Has q queues → SameSizes q.dsts q.srcs
queues-SameSizes q here = refl
queues-SameSizes q (there i) = elim i [ ]

dispatch_singles-copies_example :
    (entries : List DescList) × (lanes : List Lane) × (dispatch_singles 1 (λ i j. grants i) queues
      ≡ returns (entries, lanes))
    × (area
          (carry_out byte_engine (concat (map (λ l. asked_all l.sent) lanes)) counting)
          (all_dsts queues)
        ≡ area counting (all_srcs queues))
dispatch_singles-copies_example =
    dispatch_singles-copies byte_engine counting 1 (λ i j. grants i) (λ i j. (a_desc i, refl))
      queues queues-TakesSingles queues-SameSizes two_pages-IsApart
