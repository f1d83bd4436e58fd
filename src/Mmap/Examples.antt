-- ===== src/Mmap/Examples.antt =====
-- The programs when all goes well, when the source cannot be mapped, and when there is no queue.
use dsa_test.Base.{ℕ, ◌≡◌, ◌≢◌, ◌↔◌, ◌&&◌, refl, true, false, not, none, some, [], arith}
use dsa_test.Retry.{Attempt}
use dsa_test.Portal.{Setting, map_wq}
use dsa_test.Portal.Search.{map_wq-first}
use dsa_test.Mmap.{
  DevNode, kdev, vdev, kdst_dev, same, Os, Proc, soft_main, soft_k, soft_v, dsa_main, dsa_k, dsa_v,
}
use dsa_test.Mmap.Nodes.{HasAreas, is_made, is_forgotten, soft_main-nodes, dsa_main-leaves_nodes}
use dsa_test.Mmap.Codes.{dsa_main-code}

abbrev fresh : Proc
fresh = record { nodes = λ d. false; files = []; mapped = [] }

abbrev all_well : Os
all_well = record { mknod = λ d. true; opens = λ d. true; mmaps = λ d. true }

abbrev no_source : Os
no_source = record { mknod = λ d. true; opens = λ d. true; mmaps = λ d. not (same kdev d) }

abbrev fails : Attempt
fails = record {
  rejects = λ n. false;
  busy = λ n. false;
  comp = record { status = 16; bytes_completed = 0 };
}

abbrev no_queue : Setting
no_queue = record {
  devices = [];
  start = record { path = 0; wq_found = false };
  opens = λ p. true;
  mmap = λ p. none;
  attempts = λ k. fails;
  src = 0x10000;
  dst = 0x200000;
  comp = 0x900000;
  differs = true;
}

soft_main-nodes_example :
    ((soft_main no_source kdev fresh).1.nodes kdev ≡ false)
    × ((soft_main no_source kdev fresh).1.nodes kdst_dev
        ≡ (is_forgotten no_source kdev && is_made no_source fresh))
    × ((other : DevNode)
        → same kdev other ≡ false
        → same kdst_dev other ≡ false
        → (soft_main no_source kdev fresh).1.nodes other ≡ false)
    × (((soft_main no_source kdev fresh).0 ≡ 0) ↔ HasAreas no_source kdev)
soft_main-nodes_example = soft_main-nodes no_source kdev fresh (λ e. cc)

unmapped : map_wq 4194304 no_queue.devices no_queue.start no_queue.opens no_queue.mmap ≡ none
unmapped = map_wq-first 4194304 [] no_queue.start no_queue.opens no_queue.mmap refl

dsa_main-leaves_nodes_example :
    (s : Proc) × (dsa_main all_well no_queue 4194304 1 vdev fresh ≡ some (1, s))
    × (s.nodes vdev ≡ true)
    × (s.nodes kdst_dev ≡ true)
dsa_main-leaves_nodes_example =
    dsa_main-leaves_nodes all_well no_queue 4194304 1 vdev fresh (refl, refl, refl, refl) unmapped
      refl refl

dsa_main-code_example :
    (code : ℕ) × (t : Proc) × (dsa_main all_well no_queue 4194304 1 vdev fresh ≡ some (code, t))
    × ((code ≡ 0) ↔ (
        HasAreas all_well vdev
        × (map_wq 4194304 [] (record { path = 0; wq_found = false }) (λ p. true) (λ p. none)
            ≢ none)))
dsa_main-code_example =
    dsa_main-code all_well no_queue 4194304 1 0 vdev fresh (omega arith) (λ e. absurd (omega arith))

-- The programs of the kmalloc and vmalloc devices when all goes well.
soft_k_ends : (soft_k all_well fresh).0 ≡ 0
unfolding soft_k
soft_k_ends = refl

soft_v_ends : (soft_v all_well fresh).0 ≡ 0
unfolding soft_v
soft_v_ends = refl

-- Those that copy by the engine when there is no queue.
dsa_k_ends : (s : Proc) × (dsa_k all_well no_queue 4194304 1 fresh ≡ some (1, s))
unfolding dsa_k
dsa_k_ends =
    let (s, ran, src, dst) =
      dsa_main-leaves_nodes all_well no_queue 4194304 1 kdev fresh (refl, refl, refl, refl) unmapped
        refl refl in
    (s, ran)

dsa_v_ends : (s : Proc) × (dsa_v all_well no_queue 4194304 1 fresh ≡ some (1, s))
unfolding dsa_v
dsa_v_ends =
    let (s, ran, src, dst) =
      dsa_main-leaves_nodes all_well no_queue 4194304 1 vdev fresh (refl, refl, refl, refl) unmapped
        refl refl in
    (s, ran)
