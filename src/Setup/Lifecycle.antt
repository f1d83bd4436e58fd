-- ===== src/Setup/Lifecycle.antt =====
-- What `my_init` and `my_exit` of
-- DSA_Kernelspace_Test/3.kernel_test_N_DSAs/kernel_test_sgtable_batch.c leave behind.
use dsa_test.Base.{◌<◌, length, ◌≡◌, refl, true, false, [], pos, neg, map, ◌⊎◌}
use dsa_test.Setup.{
  Kernel, Held, nothing, any_null, allocated, my_init, my_exit, exit_module, enodev, enomem,
}
use dsa_test.Setup.Region.{vfree_all-allocated}
use dsa_test.Setup.Queues.{usable_all, numbered}

-- What the module holds once it is loaded.
abbrev pub loaded : Kernel → Held
loaded os =
    let wqs = numbered 0 (usable_all os.devices) in
    record {
      thread = true;
      areas = allocated os.vmallocs;
      reserved = allocated os.vmallocs;
      idxd_wqs = wqs;
      nodes = wqs;
      channels = map (λ e. e.wq) wqs;
    }

-- What it holds with the areas, before the queues.
abbrev allotted : Kernel → Held
allotted os = record nothing {
  thread = true;
  areas = allocated os.vmallocs;
  reserved = allocated os.vmallocs;
}

-- What a load comes to, and when.
abbrev pub InitCases : Kernel → Type 0
InitCases os =
    ((os.kthread_run ≡ false) × (my_init os ≡ (neg 1, nothing)))
    ⊎ ((os.kthread_run ≡ true)
        × (any_null os.vmallocs ≡ true)
        × (my_init os ≡ (enomem, record nothing { thread = true })))
    ⊎ ((os.kthread_run ≡ true)
        × (any_null os.vmallocs ≡ false)
        × (usable_all os.devices ≡ [])
        × (my_init os ≡ (
          enodev,
          record nothing {
            thread = true;
            areas = allocated os.vmallocs;
            reserved = allocated os.vmallocs;
          },
        )))
    ⊎ ((os.kthread_run ≡ true)
        × (any_null os.vmallocs ≡ false)
        × (0 < length (usable_all os.devices))
        × (my_init os ≡ (pos 0, loaded os)))

-- After a load that succeeded, `my_exit` gives everything back, except for the list entries that
-- `init_dsa` allocated: one for every queue is lost.
pub my_exit-leaks_nodes :
    (os : Kernel)
    → my_init os ≡ (pos 0, loaded os)
    → my_exit os.vmallocs ((my_init os).1)
      ≡ record nothing { nodes = numbered 0 (usable_all os.devices) }
unfolding my_exit exit_module
my_exit-leaks_nodes os h = rw h (rw (vfree_all-allocated os.vmallocs) refl)
