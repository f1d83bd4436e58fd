-- ===== src/Mmap.antt =====
-- The programs of DSA_Userspace_Test/memmove_Non-Contiguous-Mem-by-vmalloc_CPU_VS_DSA_TEST that map
-- the character devices of `Chardev` and copy one area to the other: mmap_to_userspace_soft_k.c and
-- mmap_to_userspace_soft_v.c by the processor, mmap_to_userspace_dsa_k.c and mmap_to_userspace_dsa_v.c
-- by the engine. The programs of a pair differ in their source device.
--
-- What the kernel answers enters as an `Os`. The copy, what it prints and the times are left out; the
-- search for a queue is `Portal.map_wq`, and the rounds of the engine are `Retry.rounds`, which these
-- programs repeat word by word.
pub mod Nodes
pub mod Codes
mod Examples
use dsa_test.Base.{
  ℕ, zero, suc, ◌+◌, ◌≡◌, Bool, true, false, ◌||◌, Option, none, some, List, [], ◌∷◌, if◌then◌else◌,
}
use dsa_test.Retry.{Exit, unfinished}
use dsa_test.Portal.{Setting, map_wq, rounds_of}

-- MMAP_KDEV, MMAP_VDEV and MMAP_KDST_DEV, the last of which has the path of MMAP_VDST_DEV
pub data DevNode : Type 0 where
  kdev vdev kdst_dev : DevNode

abbrev pub same : DevNode → DevNode → Bool
same kdev kdev = true
same vdev vdev = true
same kdst_dev kdst_dev = true
same _ _ = false

-- What `mknod`, `open` and `mmap` of a device give.
pub record Os : Type 0 where
  pub mknod : DevNode → Bool
  pub opens : DevNode → Bool
  pub mmaps : DevNode → Bool

-- The device nodes that exist, the devices that are open, and those that are mapped.
pub record Proc : Type 0 where
  pub nodes : DevNode → Bool
  pub files : List DevNode
  pub mapped : List DevNode

abbrev put : DevNode → Bool → Proc → Proc
put d b s = record s { nodes = λ x. if same x d then b else s.nodes x }

-- `system("mknod ...")`, which leaves a node that is there
abbrev pub mknod : Os → DevNode → Proc → Proc
mknod os d s = put d (s.nodes d || os.mknod d) s

-- `system("rm ...")`
abbrev pub rm : DevNode → Proc → Proc
rm d s = put d false s

-- `exit(code)` or the state in which both areas are mapped.
pub data Areas : Type 0 where
  exits : ℕ → Proc → Areas
  ready : Proc → Areas

abbrev open_file : DevNode → Proc → Proc
open_file d s = record s { files = d ∷ s.files }

abbrev map_area : DevNode → Proc → Proc
map_area d s = record s { mapped = d ∷ s.mapped }

-- Both `mmap`s, with both files open
pub map_areas : Os → DevNode → Proc → Areas
map_areas os src s =
    if os.mmaps src
    then if os.mmaps kdst_dev
      then ready (map_area kdst_dev (map_area src s))
      else exits 1 (rm src (rm kdst_dev (map_area src s)))
    else exits 1 (rm src s)

-- The calls before the copy.
pub open_areas : Os → DevNode → Proc → Areas
unfolding map_areas
open_areas os src before =
    let s = mknod os kdst_dev (mknod os src before) in
    if os.opens src
    then if os.opens kdst_dev
      then map_areas os src (open_file kdst_dev (open_file src s))
      else exits 1 (rm src (rm kdst_dev (open_file src s)))
    else exits 1 (rm src s)

-- The calls after it.
pub close_areas : DevNode → Proc → Proc
close_areas src s = rm kdst_dev (rm src (record s { files = []; mapped = [] }))

-- `main` of mmap_to_userspace_soft_k.c and mmap_to_userspace_soft_v.c: the exit code, and what is
-- left.
pub soft_main : Os → DevNode → Proc → ℕ × Proc
unfolding open_areas close_areas
soft_main os src before = elim (open_areas os src before) [
  | exits code s ↦ (code, s)
  | ready s ↦ (0, close_areas src s)
]

pub soft_k : Os → Proc → ℕ × Proc
unfolding soft_main
soft_k os = soft_main os kdev

pub soft_v : Os → Proc → ℕ × Proc
unfolding soft_main
soft_v os = soft_main os vdev

-- From the label `done1` on; `rc` is not returned.
abbrev after_rounds : Exit → DevNode → Proc → Option (ℕ × Proc)
after_rounds unfinished src s = none
after_rounds _ src s = some (0, close_areas src s)

-- What follows when both areas are mapped
pub copy_areas : Setting → ℕ → ℕ → DevNode → Proc → Option (ℕ × Proc)
unfolding close_areas
copy_areas m blen fuel src s = elim (map_wq blen m.devices m.start m.opens m.mmap) [
  | none ↦ some (1, s)
  | some wq_portal ↦ after_rounds (rounds_of m blen fuel) src s
]

-- `main` of mmap_to_userspace_dsa_k.c and mmap_to_userspace_dsa_v.c; `none` when the rounds have not
-- ended after `fuel` of them.
pub dsa_main : Os → Setting → ℕ → ℕ → DevNode → Proc → Option (ℕ × Proc)
unfolding open_areas copy_areas
dsa_main os m blen fuel src before = elim (open_areas os src before) [
  | exits code s ↦ some (code, s)
  | ready s ↦ copy_areas m blen fuel src s
]

pub dsa_k : Os → Setting → ℕ → ℕ → Proc → Option (ℕ × Proc)
unfolding dsa_main
dsa_k os m blen fuel = dsa_main os m blen fuel kdev

pub dsa_v : Os → Setting → ℕ → ℕ → Proc → Option (ℕ × Proc)
unfolding dsa_main
dsa_v os m blen fuel = dsa_main os m blen fuel vdev
