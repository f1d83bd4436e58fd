-- ===== src/Devices/Reached.antt =====
-- Which modules the programs of
-- DSA_Userspace_Test/memmove_Non-Contiguous-Mem-by-vmalloc_CPU_VS_DSA_TEST reach.
use dsa_test.Base.{
  ◌≡◌, ◌≢◌, ◌↔◌, ◌∙◌, refl, sym, ap, inl, inr, true, false, some, none, ℕ, List, is_neg, Bool-cases,
  arith, ◌<◌,
}
use dsa_test.Chardev.{Mapping}
use dsa_test.Chardev.Kmalloc as Kmalloc
use dsa_test.Chardev.Vmalloc as Vmalloc
use dsa_test.Chardev.Kmalloc.Mapped.{my_mmap-whole}
use dsa_test.Chardev.Vmalloc.Mapped.{my_mmap-pages}
use dsa_test.Mmap.{DevNode, kdev, vdev, kdst_dev, Os, Proc, soft_main, dsa_main}
use dsa_test.Mmap.Codes.{dsa_main-code}
use dsa_test.Retry.{op_status, page_fault_nobof}
use dsa_test.Portal.{Setting, map_wq}
use dsa_test.Mmap.Nodes.{HasAreas, soft_main-nodes}
use dsa_test.Devices.{
  Module, kmalloc, kmalloc_dst, vmalloc, vmalloc_dst, System, Event, run, booted, Paging, my_mmap,
  mapped, whole_area, Numbered, IsKernel,
}
use dsa_test.Devices.Loaded.{Inv, run-Inv, booted-Inv}

-- The module whose area a program means to map from a node.
abbrev pub behind : DevNode → Module
behind kdev = kmalloc
behind vdev = vmalloc
behind kdst_dev = kmalloc_dst

pub behind-Numbered : (d : DevNode) → Numbered d (behind d)
behind-Numbered kdev = (refl, refl)
behind-Numbered vdev = (refl, refl)
behind-Numbered kdst_dev = (refl, refl)

pub Numbered-behind : (d : DevNode) (x : Module) → Numbered d x → x ≡ behind d
Numbered-behind kdev kmalloc h = refl
Numbered-behind kdev kmalloc_dst h = absurd (omega arith)
Numbered-behind kdev vmalloc h = absurd (omega arith)
Numbered-behind kdev vmalloc_dst h = absurd (omega arith)
Numbered-behind vdev kmalloc h = absurd (omega arith)
Numbered-behind vdev kmalloc_dst h = absurd (omega arith)
Numbered-behind vdev vmalloc h = refl
Numbered-behind vdev vmalloc_dst h = absurd (omega arith)
Numbered-behind kdst_dev kmalloc h = absurd (omega arith)
Numbered-behind kdst_dev kmalloc_dst h = refl
Numbered-behind kdst_dev vmalloc h = absurd (omega arith)
Numbered-behind kdst_dev vmalloc_dst h = absurd (omega arith)

module _ (p : Paging) (ok : (m : Mapping) → is_neg (p.remap_pfn_range m) ≡ false) where
  kmalloc-mapped :
      (frame : ℕ) → mapped (some (Kmalloc.my_mmap frame p.remap_pfn_range (whole_area p))) ≡ true
  kmalloc-mapped frame =
      rw (my_mmap-whole frame p.remap_pfn_range (whole_area p) ok (omega arith)) refl

  vmalloc-mapped :
      (a : ℕ) → mapped (Vmalloc.my_mmap p.pfn p.remap_pfn_range a (whole_area p)) ≡ true
  vmalloc-mapped a =
      let (k, enough, tight, ran) =
        my_mmap-pages p.pfn p.remap_pfn_range a (whole_area p) ok (omega arith) in
      rw ran refl

  my_mmap-mapped : (x : Module) (a : ℕ) → mapped (my_mmap p x a) ≡ true
  unfolding my_mmap
  my_mmap-mapped kmalloc a = kmalloc-mapped (p.pfn a)
  my_mmap-mapped kmalloc_dst a = kmalloc-mapped (p.pfn a)
  my_mmap-mapped vmalloc a = vmalloc-mapped a
  my_mmap-mapped vmalloc_dst a = vmalloc-mapped a

  module _ (s : System) (i : Inv s) (os : Os) (kernel : IsKernel p s os) where
    open-loaded : (d : DevNode) → os.opens d ≡ s.loaded (behind d)
    open-loaded d = elim (Bool-cases (s.loaded (behind d))) [
      | inl on ↦ kernel.open_loaded d (behind d) (behind-Numbered d) on ∙ sym on
      | inr off ↦ kernel.open_none d (λ x h. ap s.loaded (Numbered-behind d x h) ∙ off) ∙ sym off
    ]

    mmap-loaded : (d : DevNode) → s.loaded (behind d) ≡ true → os.mmaps d ≡ true
    mmap-loaded d on =
        let (a, there) = (i.full (behind d) on).area in
        kernel.mmap_loaded d (behind d) a (behind-Numbered d) on there ∙ my_mmap-mapped (behind d) a

    pub areas-reached :
        (src : DevNode)
        → HasAreas os src ↔ ((s.loaded (behind src) ≡ true) × (s.loaded kmalloc_dst ≡ true))
    areas-reached src = (
      λ (a, b, c, d). (sym (open-loaded src) ∙ a, sym (open-loaded kdst_dev) ∙ b),
      λ (a, b). (
        open-loaded src ∙ a,
        open-loaded kdst_dev ∙ b,
        mmap-loaded src a,
        mmap-loaded kdst_dev b,
      ),
    )

-- On a kernel in which the modules have been loaded and unloaded in any order, with whatever answers,
-- and which can map pages, a program that makes the nodes of its devices behaves as follows. One that
-- copies by the processor exits with 0 exactly when the module of its source and
-- kmalloc_to_userspace_dst.c are loaded: vmalloc_to_userspace_dst.c, whose path the node of the
-- destination has, does not matter. One that copies by the engine, of which some round `j` would
-- report no page fault, ends within `j + 1` rounds, with 0 exactly when, besides, a portal is mapped.
pub programs-reached :
    (es : List Event) (p : Paging) (os : Os) (m : Setting) (blen fuel j : ℕ) (src : DevNode)
    (before : Proc)
    → IsKernel p (run es booted) os
    → ((mapping : Mapping) → is_neg (p.remap_pfn_range mapping) ≡ false)
    → src ≢ kdst_dev
    → ((d : DevNode) → before.nodes d ≡ false)
    → ((d : DevNode) → os.mknod d ≡ true)
    → j < fuel
    → op_status (m.attempts j).comp.status ≢ page_fault_nobof
    → (((soft_main os src before).0 ≡ 0) ↔ (
        ((run es booted).loaded (behind src) ≡ true) × ((run es booted).loaded kmalloc_dst ≡ true)))
      × ((code : ℕ) × (left : Proc) × (dsa_main os m blen fuel src before ≡ some (code, left))
          × ((code ≡ 0) ↔ (
              ((run es booted).loaded (behind src) ≡ true)
              × ((run es booted).loaded kmalloc_dst ≡ true)
              × (map_wq blen m.devices m.start m.opens m.mmap ≢ none))))
programs-reached es p os m blen fuel j src before kernel ok other fresh made h quiet =
    let inv = run-Inv es booted booted-Inv in
    let areas = areas-reached p ok (run es booted) inv os kernel src in
    let (node, dst, rest, soft) = soft_main-nodes os src before other in
    let (code, left, ran, dsa) = dsa_main-code os m blen fuel j src before h quiet in
    (
      (λ e. areas.0 (soft.0 e), λ both. soft.1 (areas.1 both)),
      (
        code,
        left,
        ran,
        (
          λ e. let (both, portal) = dsa.0 e in let (a, b) = areas.0 both in (a, b, portal),
          λ (a, b, portal). dsa.1 (areas.1 (a, b), portal),
        ),
      ),
    )
