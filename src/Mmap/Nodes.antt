-- ===== src/Mmap/Nodes.antt =====
-- Which device nodes the programs of
-- DSA_Userspace_Test/memmove_Non-Contiguous-Mem-by-vmalloc_CPU_VS_DSA_TEST leave behind.
use dsa_test.Base.{
  ℕ, ◌≡◌, ◌≢◌, ◌↔◌, refl, Bool, true, false, ◌||◌, ◌&&◌, none, some, ◌∷◌, if◌then◌else◌, arith,
}
use dsa_test.Portal.{Setting, map_wq}
use dsa_test.Mmap.{
  DevNode, kdev, vdev, kdst_dev, same, Os, Proc, mknod, ready, map_areas, open_areas, close_areas,
  soft_main, copy_areas, dsa_main,
}

-- The destination's node is there after `mknod`.
abbrev pub is_made : Os → Proc → Bool
is_made os before = before.nodes kdst_dev || os.mknod kdst_dev

-- Where `main` exits without removing the node of the destination.
abbrev pub is_forgotten : Os → DevNode → Bool
is_forgotten os src =
    if os.opens src
    then (if os.opens kdst_dev then (if os.mmaps src then false else true) else false)
    else true

-- Both areas are mapped.
abbrev pub HasAreas : Os → DevNode → Type 0
HasAreas os src =
    (os.opens src ≡ true)
    × (os.opens kdst_dev ≡ true)
    × (os.mmaps src ≡ true)
    × (os.mmaps kdst_dev ≡ true)

-- For a source that is not the destination: its node is gone when `main` of the programs that copy by
-- the processor ends, and that of the destination too, but when the source cannot be opened, or both
-- can be opened and the source cannot be mapped. No other node changes. The exit code is 0 exactly
-- when both areas are mapped.
pub soft_main-nodes :
    (os : Os) (src : DevNode) (before : Proc)
    → src ≢ kdst_dev
    → ((soft_main os src before).1.nodes src ≡ false)
      × ((soft_main os src before).1.nodes kdst_dev ≡ (is_forgotten os src && is_made os before))
      × ((other : DevNode)
          → same src other ≡ false
          → same kdst_dev other ≡ false
          → (soft_main os src before).1.nodes other ≡ before.nodes other)
      × (((soft_main os src before).0 ≡ 0) ↔ HasAreas os src)
unfolding soft_main open_areas map_areas close_areas
soft_main-nodes os kdev before h = ground arith
soft_main-nodes os vdev before h = ground arith
soft_main-nodes os kdst_dev before h = absurd (h refl)

-- The state in which both areas are mapped.
abbrev pub with_areas : Os → DevNode → Proc → Proc
with_areas os src before = record (mknod os kdst_dev (mknod os src before)) {
  files = kdst_dev ∷ src ∷ before.files;
  mapped = kdst_dev ∷ src ∷ before.mapped;
}

pub open_areas-ready :
    (os : Os) (src : DevNode) (before : Proc)
    → HasAreas os src
    → open_areas os src before ≡ ready (with_areas os src before)
unfolding open_areas map_areas
open_areas-ready os src before (a, b, c, d) = rw (a, b, c, d)

mknod-nodes :
    (os : Os) (src : DevNode) (before : Proc)
    → os.mknod src ≡ true
    → os.mknod kdst_dev ≡ true
    → ((with_areas os src before).nodes src ≡ true)
      × ((with_areas os src before).nodes kdst_dev ≡ true)
mknod-nodes os kdev before h g = ground arith
mknod-nodes os vdev before h g = ground arith
mknod-nodes os kdst_dev before h g = ground arith

pub copy_areas-unmapped :
    (m : Setting) (blen fuel : ℕ) (src : DevNode) (s : Proc)
    → map_wq blen m.devices m.start m.opens m.mmap ≡ none
    → copy_areas m blen fuel src s ≡ some (1, s)
unfolding copy_areas
copy_areas-unmapped m blen fuel src s e = rw (e, copy_areas)

-- When the programs that copy by the engine have mapped both areas and find no queue, `main` exits
-- with 1 and leaves both nodes that it has made.
pub dsa_main-leaves_nodes :
    (os : Os) (m : Setting) (blen fuel : ℕ) (src : DevNode) (before : Proc)
    → HasAreas os src
    → map_wq blen m.devices m.start m.opens m.mmap ≡ none
    → os.mknod src ≡ true
    → os.mknod kdst_dev ≡ true
    → (s : Proc) × (dsa_main os m blen fuel src before ≡ some (1, s))
      × (s.nodes src ≡ true)
      × (s.nodes kdst_dev ≡ true)
unfolding dsa_main
dsa_main-leaves_nodes os m blen fuel src before areas unmapped made made_dst =
    let (left, left_dst) = mknod-nodes os src before made made_dst in
    (
      with_areas os src before,
      rw (open_areas-ready os src before areas, dsa_main)
          (copy_areas-unmapped m blen fuel src (with_areas os src before) unmapped),
      left,
      left_dst,
    )
