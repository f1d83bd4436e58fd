-- ===== src/Devices/Examples.antt =====
-- The modules in the order of test.sh of
-- DSA_Userspace_Test/memmove_Non-Contiguous-Mem-by-vmalloc_CPU_VS_DSA_TEST.
use dsa_test.Base.{
  ℕ, ◌/◌, ◌≡◌, ◌≢◌, ◌↔◌, refl, ap, sym, ◌∙◌, Option, Bool, true, false, some, none, List, [], ◌∷◌,
  pos, arith,
}
use dsa_test.Chardev.{Kernel}
use dsa_test.Chardev.Kmalloc as Kmalloc
use dsa_test.Chardev.Vmalloc as Vmalloc
use dsa_test.Retry.{Attempt}
use dsa_test.Portal.{Setting, map_wq}
use dsa_test.Mmap.{kdev, Os, Proc, soft_main, dsa_main}
use dsa_test.Devices.{
  kmalloc, kmalloc_dst, vmalloc, vmalloc_dst, Event, load, run, booted, Paging, my_mmap, mapped,
  IsKernel, my_init, my_exit, Module, System,
}
use dsa_test.Devices.Loaded.{Inv, loads-Inv}
use dsa_test.Devices.Reached.{behind, Numbered-behind, behind-Numbered, programs-reached}

abbrev willing : Kernel
willing = record {
  proc_create = true;
  register_chrdev_region = pos 0;
  alloc = some 0x9000;
  cdev_add = pos 0;
}

abbrev four_loads : List Event
four_loads =
    load vmalloc_dst willing
    ∷ load vmalloc willing
    ∷ load kmalloc willing
    ∷ load kmalloc_dst willing
    ∷ []

all_loaded : (run four_loads booted).loaded vmalloc_dst ≡ true
unfolding run my_init my_exit Vmalloc.my_init Kmalloc.my_init
all_loaded = refl

loads-Inv_example : Inv (run four_loads booted)
loads-Inv_example = loads-Inv four_loads

abbrev paging : Paging
paging = record { pfn = λ a. a / 4096; remap_pfn_range = λ m. pos 0; start = 0x700000 }

-- A kernel that opens the module with the number of the node
abbrev maps_area : Module → Option ℕ → Bool
maps_area x none = false
maps_area x (some a) = mapped (my_mmap paging x a)

abbrev an_os : System → Os
an_os s = record {
  mknod = λ d. true;
  opens = λ d. s.loaded (behind d);
  mmaps = λ d. maps_area (behind d) (s.held (behind d)).area;
}

an_os-IsKernel : (s : System) → IsKernel paging s (an_os s)
an_os-IsKernel s = record {
  open_loaded = λ d x h on. ap s.loaded (sym (Numbered-behind d x h)) ∙ on;
  open_none = λ d none_loaded. none_loaded (behind d) (behind-Numbered d);
  mmap_loaded = λ d x a h on area.
      ap (λ y. maps_area y (s.held y).area) (sym (Numbered-behind d x h)) ∙ ap (maps_area x) area;
}

abbrev succeeds : Attempt
succeeds = record {
  rejects = λ n. false;
  busy = λ n. false;
  comp = record { status = 1; bytes_completed = 0 };
}

abbrev a_setting : Setting
a_setting = record {
  devices = [];
  start = record { path = 0; wq_found = false };
  opens = λ p. true;
  mmap = λ p. some 4096;
  attempts = λ k. succeeds;
  src = 0x10000;
  dst = 0x800000;
  comp = 0x900000;
  differs = false;
}

abbrev fresh : Proc
fresh = record { nodes = λ d. false; files = []; mapped = [] }

programs-reached_example :
    (((soft_main (an_os (run four_loads booted)) kdev fresh).0 ≡ 0) ↔ (
      ((run four_loads booted).loaded kmalloc ≡ true)
      × ((run four_loads booted).loaded kmalloc_dst ≡ true)))
    × ((code : ℕ) × (left : Proc) × (dsa_main
            (an_os (run four_loads booted))
            a_setting
            4194304
            1
            kdev
            fresh
          ≡ some (code, left))
        × ((code ≡ 0) ↔ (
            ((run four_loads booted).loaded kmalloc ≡ true)
            × ((run four_loads booted).loaded kmalloc_dst ≡ true)
            × (map_wq 4194304 [] a_setting.start a_setting.opens a_setting.mmap ≢ none))))
programs-reached_example =
    programs-reached four_loads paging (an_os (run four_loads booted)) a_setting 4194304 1 0 kdev
      fresh (an_os-IsKernel (run four_loads booted)) (λ m. refl) (λ e. absurd cc) (λ d. refl)
      (λ d. refl) (omega arith) (λ e. absurd (omega arith))
