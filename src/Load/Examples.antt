-- ===== src/Load/Examples.antt =====
-- Two pages, copied through the second queue of the third device.
use dsa_test.Base.{
  ℕ, ◌≤◌, ◌≡◌, refl, inl, inr, true, false, none, some, List, [], ◌∷◌, map, arith, pos, returns,
  Option, get_or, Has, here, there,
}
use dsa_test.Desc.{Desc, Wq, Seg, zeroed, enabled}
use dsa_test.Desc.Batch.{transfer}
use dsa_test.Setup.{any_null, allocated}
use dsa_test.Probe.{IdxdWq}
use dsa_test.Copy.Loop.{Kernel, finished}
use dsa_test.Copy.Loop.Polls.{succeeds_at}
use dsa_test.Single.Freed.{pages_of}
use dsa_test.Engine.{carry_out, area, Disjoint, IsApart, apart_nil, apart_cons}
use dsa_test.Engine.Bytes.{byte_engine, counting}
use dsa_test.Load.{Os, Held, my_init, my_exit}
use dsa_test.Load.Stages.{LoadCases, load-cases}
use dsa_test.Load.Unload.{Unloaded, load-Unloaded}
use dsa_test.Load.Copied.{load-copies}

abbrev the_wq : IdxdWq
the_wq = record { enabled = true; dmaengine = true; client_count = 0 }

abbrev two_wqs : List IdxdWq
two_wqs = the_wq ∷ the_wq ∷ []

abbrev eight : List (Option (List IdxdWq))
eight = none ∷ none ∷ some two_wqs ∷ none ∷ none ∷ none ∷ none ∷ none ∷ []

abbrev a_wq : Wq
a_wq = record {
  state = enabled;
  num_descs = 2;
  idxd = record {
    max_xfer_bytes = 4096;
    max_batch_size = 2;
    compl_size = 32;
    pasid_enabled = true;
    pasid = 5;
  };
}

abbrev a_desc : ℕ → Desc
a_desc i = record { id = i; hw = zeroed; compl_dma = 0x700; txd_flags = 0 }

abbrev at_once : ℕ → ℕ
at_once i = 0

abbrev copies : Kernel
copies = record {
  dma_prep_interrupt = 1;
  alloc = λ i. some (a_desc i);
  refuses = λ k. false;
  status = λ loop. succeeds_at at_once;
}

abbrev seg : ℕ → Seg
seg a = record { dma_address = a; dma_len = 4096 }

abbrev six : List (Option ℕ)
six = some 0x10000 ∷ some 0x20000 ∷ some 0x30000 ∷ some 0x40000 ∷ some 0x50000 ∷ some 0x60000 ∷ []

abbrev an_os : Os
an_os = record {
  npages = 2;
  vmallocs = six;
  devices = eight;
  get_channel = λ w. true;
  alloc_fails = λ k. false;
  to_page = λ a. some a;
  map_fails = λ k. false;
  mapped = map seg;
  unmapped = λ pages. [];
  queue = λ w. a_wq;
  copies = copies;
}

abbrev pages_at : ℕ → List Seg
pages_at i = map seg (pages_of (λ a. a) (get_or (allocated an_os.vmallocs) i 0) 2 0)

above : (a : ℕ) → 0x20000 ≤ a → (s : Seg) → Has s (pages_at 0) → Disjoint (seg a) s
unfolding allocated
above a h s here = inr (omega arith)
above a h s (there here) = inr (omega arith)
above a h s (there (there i)) = elim i [ ]

below : (d : Seg) → Has d (seg 0x21000 ∷ []) → Disjoint (seg 0x20000) d
below d here = inl (omega arith)
below d (there i) = elim i [ ]

last : (d : Seg) → Has d [] → Disjoint (seg 0x21000) d
last d i = elim i [ ]

pages_at-IsApart : IsApart (pages_at 0) (pages_at 1)
unfolding allocated
pages_at-IsApart =
    apart_cons (above 0x20000 (omega arith)) below
      (apart_cons (above 0x21000 (omega arith)) last apart_nil)

load-copies_example :
    (s : Held) × (log : List Desc) × (poll : ℕ) × (my_init an_os ≡ returns (pos 0, s))
    × (s.copied ≡ some (finished log [] poll))
    × (area (carry_out byte_engine (map (λ d. transfer d.hw) log) counting) (pages_at 1)
        ≡ area counting (pages_at 0))
unfolding any_null
load-copies_example =
    load-copies byte_engine counting an_os (λ a. a) seg two_wqs the_wq a_wq at_once refl (λ a. refl)
      (λ k. refl) (λ k. refl) (λ pages. refl) (λ p. refl) (omega arith) (omega arith) refl refl refl
      refl (λ v. refl) (λ n. refl) refl (omega arith) (omega arith) (omega arith)
      (λ i. (a_desc i, refl)) (λ k. refl) (λ i. omega arith) (λ loop. refl) pages_at-IsApart

a_load : (s : Held) × (my_init an_os ≡ returns (pos 0, s))
unfolding any_null
a_load =
    let (s, log, poll, ran, ended, copied) =
      load-copies byte_engine counting an_os (λ a. a) seg two_wqs the_wq a_wq at_once refl
        (λ a. refl) (λ k. refl) (λ k. refl) (λ pages. refl) (λ p. refl) (omega arith) (omega arith)
        refl refl refl refl (λ v. refl) (λ n. refl) refl (omega arith) (omega arith) (omega arith)
        (λ i. (a_desc i, refl)) (λ k. refl) (λ i. omega arith) (λ loop. refl) pages_at-IsApart in
    (s, ran)

load-Unloaded_example :
    (t : Held) × (my_exit an_os a_load.0 ≡ returns t) × Unloaded an_os a_load.0 t
load-Unloaded_example = load-Unloaded an_os (pos 0) a_load.0 refl a_load.1

load-cases_example : LoadCases an_os
load-cases_example = load-cases an_os
