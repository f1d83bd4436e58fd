-- ===== src/Devices.antt =====
-- The four character devices of
-- DSA_Userspace_Test/memmove_Non-Contiguous-Mem-by-vmalloc_CPU_VS_DSA_TEST in one kernel, and the
-- programs of that directory on top of them: kmalloc_to_userspace.c, kmalloc_to_userspace_dst.c,
-- vmalloc_to_userspace.c and vmalloc_to_userspace_dst.c. The `_dst` modules have the code of the
-- others, with their own minor number, names and text.
--
-- A `System` is what the modules hold of a kernel: their names in /proc, their device numbers, and what
-- each has for itself. What the kernel answers to a module is a `Chardev.Kernel`, and what it gives to
-- the programs is an `Mmap.Os`, of which `IsKernel` has what the programs rely on.
pub mod Apart
pub mod Loaded
pub mod Willing
pub mod Reached
mod Examples
use Prim.Native.String.{String}
use text.Mathlib.Text.{◌==◌ as str_eq}
use dsa_test.Base.{
  ℕ, ◌*◌, ◌+◌, ◌≡◌, Bool, true, false, not, ◌&&◌, ◌||◌, Option, none, some, List, [], ◌∷◌, ℤ, neg,
  pos, is_neg, if◌then◌else◌,
}
use dsa_test.Base
use dsa_test.Chardev.{Kernel, Held, nothing, Vma, Mapping, page_size, npages}
use dsa_test.Chardev.Kmalloc as Kmalloc
use dsa_test.Chardev.Vmalloc as Vmalloc
use dsa_test.Chardev.KmallocDst as KmallocDst
use dsa_test.Chardev.VmallocDst as VmallocDst
use dsa_test.Mmap.{DevNode, kdev, vdev, kdst_dev, Os}

pub data Module : Type 0 where
  kmalloc kmalloc_dst vmalloc vmalloc_dst : Module

abbrev pub same : Module → Module → Bool
same kmalloc kmalloc = true
same kmalloc_dst kmalloc_dst = true
same vmalloc vmalloc = true
same vmalloc_dst vmalloc_dst = true
same _ _ = false

-- `MKDEV(MY_MAJOR, minor)`
abbrev pub major : Module → ℕ
major kmalloc = 43
major kmalloc_dst = 43
major vmalloc = 42
major vmalloc_dst = 42

abbrev pub minor : Module → ℕ
minor kmalloc = 0
minor kmalloc_dst = 1
minor vmalloc = 0
minor vmalloc_dst = 1

-- PROC_KMALLOC_NAME and the others of mmap_to_userspace.h
abbrev pub proc_name : Module → String
proc_name kmalloc = "my-kmalloc-entry"
proc_name kmalloc_dst = "my-kmalloc-dst-entry"
proc_name vmalloc = "my-vmalloc-entry"
proc_name vmalloc_dst = "my-vmalloc-dst-entry"

pub my_init : Module → Kernel → ℤ × Held
my_init kmalloc = Kmalloc.my_init
my_init kmalloc_dst = KmallocDst.my_init
my_init vmalloc = Vmalloc.my_init
my_init vmalloc_dst = VmallocDst.my_init

pub my_exit : Module → Held → Held
my_exit kmalloc = Kmalloc.my_exit
my_exit kmalloc_dst = KmallocDst.my_exit
my_exit vmalloc = Vmalloc.my_exit
my_exit vmalloc_dst = VmallocDst.my_exit

pub record System : Type 0 where
  pub procs : String → Bool
  pub regions : ℕ → ℕ → Bool
  pub loaded : Module → Bool
  pub held : Module → Held

-- `-EEXIST`
abbrev pub eexist : ℤ
eexist = neg 17

-- The state in which module `x` holds `h`, and its name and number are as given.
pub update : Module → Bool → Bool → Bool → Held → System → System
update x proc region on h s = record {
  procs = λ name. if str_eq name (proc_name x) then proc else s.procs name;
  regions =
      λ ma mi. if Base.◌==◌ ma (major x) && Base.◌==◌ mi (minor x) then region else s.regions ma mi;
  loaded = λ y. if same x y then on else s.loaded y;
  held = λ y. if same x y then h else s.held y;
}

-- `insmod`: a module is loaded when its `my_init` returns no error.
pub insmod : Module → Kernel → System → ℤ × System
unfolding my_init update
insmod x os s =
    if s.loaded x
    then (eexist, s)
    else let (ret, h) = my_init x os in
      (
        ret,
        update x (s.procs (proc_name x) || h.proc_entry) (s.regions (major x) (minor x) || h.region)
            (not (is_neg ret)) h s,
      )

-- `rmmod`: `my_exit` gives back the name and the number.
pub rmmod : Module → System → System
unfolding my_exit update
rmmod x s =
    if s.loaded x
    then (let h = my_exit x (s.held x) in update x h.proc_entry h.region false h s)
    else s

pub data Event : Type 0 where
  load : Module → Kernel → Event
  unload : Module → Event

pub run : List Event → System → System
unfolding insmod rmmod
run [] s = s
run (load x os ∷ es) s = run es (insmod x os s).1
run (unload x ∷ es) s = run es (rmmod x s)

-- Nothing is loaded yet, and no name and number is taken.
abbrev pub booted : System
booted = record {
  procs = λ name. false;
  regions = λ ma mi. false;
  loaded = λ x. false;
  held = λ x. nothing;
}

-- What the kernel knows of pages: the frame of a page of an area, and what `remap_pfn_range` returns.
-- `start` is where the process gets its mapping.
pub record Paging : Type 0 where
  pub pfn : ℕ → ℕ
  pub remap_pfn_range : Mapping → ℤ
  pub start : ℕ

-- The numbers in `system("mknod ... c 43 0")` and its like
abbrev pub node_major : DevNode → ℕ
node_major kdev = 43
node_major vdev = 42
node_major kdst_dev = 43

abbrev pub node_minor : DevNode → ℕ
node_minor kdev = 0
node_minor vdev = 0
node_minor kdst_dev = 1

-- The mapping of `NPAGES * getpagesize()` bytes that the programs ask for
abbrev pub whole_area : Paging → Vma
whole_area p = record { vm_start = p.start; vm_end = p.start + npages * page_size }

-- `my_mmap` of a module for this mapping, on the area `a`
pub my_mmap : Paging → Module → ℕ → Option (ℤ × List Mapping)
my_mmap p kmalloc a = some (Kmalloc.my_mmap (p.pfn a) p.remap_pfn_range (whole_area p))
my_mmap p kmalloc_dst a = some (KmallocDst.my_mmap (p.pfn a) p.remap_pfn_range (whole_area p))
my_mmap p vmalloc a = Vmalloc.my_mmap p.pfn p.remap_pfn_range a (whole_area p)
my_mmap p vmalloc_dst a = VmallocDst.my_mmap p.pfn p.remap_pfn_range a (whole_area p)

-- It succeeds.
abbrev pub mapped : Option (ℤ × List Mapping) → Bool
mapped none = false
mapped (some (ret, ms)) = not (is_neg ret)

-- The node is that of the module.
abbrev pub Numbered : DevNode → Module → Type 0
Numbered d x = (major x ≡ node_major d) × (minor x ≡ node_minor d)

-- What the programs get from a kernel in the state `s`, for nodes that they have made: `open` reaches the
-- module that is loaded with the number of the node, if there is one, and `mmap` is `my_mmap` of this
-- module.
pub record IsKernel (p : Paging) (s : System) (os : Os) : Type 0 where
  pub open_loaded :
      (d : DevNode) (x : Module) → Numbered d x → s.loaded x ≡ true → os.opens d ≡ true
  pub open_none :
      (d : DevNode) → ((x : Module) → Numbered d x → s.loaded x ≡ false) → os.opens d ≡ false
  pub mmap_loaded :
      (d : DevNode) (x : Module) (a : ℕ)
      → Numbered d x
      → s.loaded x ≡ true
      → (s.held x).area ≡ some a
      → os.mmaps d ≡ mapped (my_mmap p x a)
