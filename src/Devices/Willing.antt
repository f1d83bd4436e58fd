-- ===== src/Devices/Willing.antt =====
-- That the modules of DSA_Userspace_Test/memmove_Non-Contiguous-Mem-by-vmalloc_CPU_VS_DSA_TEST can
-- be loaded beside each other.
use dsa_test.Base.{◌≡◌, ◌∙◌, refl, Bool, true, false, some, ℕ, is_neg, pos, if◌then◌else◌}
use dsa_test.Chardev.{Kernel, Held}
use dsa_test.Chardev.Kmalloc as Kmalloc
use dsa_test.Chardev.Vmalloc as Vmalloc
use dsa_test.Devices.{
  Module, kmalloc, kmalloc_dst, vmalloc, vmalloc_dst, same, my_init, proc_name, major, minor,
  System, update, insmod,
}
use dsa_test.Devices.Loaded.{Inv, insmod-fresh}

-- What a kernel with memory answers to a module
pub record Willing (os : Kernel) : Type 0 where
  pub proc_create : os.proc_create ≡ true
  pub region : is_neg os.register_chrdev_region ≡ false
  pub area : (a : ℕ) × (os.alloc ≡ some a)
  pub cdev_add : is_neg os.cdev_add ≡ false

my_init-loads : (x : Module) (os : Kernel) → Willing os → (my_init x os).0 ≡ pos 0
unfolding my_init Kmalloc.my_init Vmalloc.my_init
my_init-loads kmalloc os w = rw (w.proc_create, w.region, w.area.1, w.cdev_add) refl
my_init-loads kmalloc_dst os w = rw (w.proc_create, w.region, w.area.1, w.cdev_add) refl
my_init-loads vmalloc os w = rw (w.proc_create, w.region, w.area.1, w.cdev_add) refl
my_init-loads vmalloc_dst os w = rw (w.proc_create, w.region, w.area.1, w.cdev_add) refl

update-loaded :
    (x : Module) (p r on : Bool) (h : Held) (s : System)
    → (y : Module) → (update x p r on h s).loaded y ≡ (if same x y then on else s.loaded y)
unfolding update
update-loaded x p r on h s y = refl

-- The modules do not get in each other's way: when one that is not loaded asks for its name and its
-- number, no other has taken them; and if the kernel then answers well, it is loaded, and the others
-- stay as they are.
pub insmod-loads :
    (x : Module) (os : Kernel) (s : System)
    → Inv s
    → s.loaded x ≡ false
    → Willing os
    → (s.procs (proc_name x) ≡ false)
      × (s.regions (major x) (minor x) ≡ false)
      × ((y : Module) → (insmod x os s).1.loaded y ≡ (if same x y then true else s.loaded y))
insmod-loads x os s i off w = (
  i.procs x ∙ off,
  i.regions x ∙ off,
  λ y. rw (insmod-fresh x os s off) (update-loaded x _ _ _ _ s y ∙ rw (my_init-loads x os w) refl),
)
