-- ===== src/Mmap/Codes.antt =====
-- The exit codes of mmap_to_userspace_dsa_k.c and mmap_to_userspace_dsa_v.c in
-- DSA_Userspace_Test/memmove_Non-Contiguous-Mem-by-vmalloc_CPU_VS_DSA_TEST.
use dsa_test.Base.{
  ℕ, ◌<◌, ◌≡◌, ◌≢◌, ◌↔◌, inl, inr, refl, Bool, Option-cases, true, false, none, some, arith,
}
use dsa_test.Retry.{
  Exit, enqcmd_limit, poll_limit, moved, unfinished, failed, op_status, page_fault_nobof,
}
use dsa_test.Portal.{Setting, map_wq, rounds_of}
use dsa_test.Portal.Outcomes.{rounds_of-ended}
use dsa_test.Mmap.{
  Areas, DevNode, Os, Proc, exits, ready, map_areas, open_areas, after_rounds, copy_areas, dsa_main,
}
use dsa_test.Mmap.Nodes.{HasAreas, copy_areas-unmapped}

-- How the calls before the copy end.
abbrev is_ready : Areas → Bool
is_ready (exits code s) = false
is_ready (ready s) = true

abbrev exit_of : Areas → ℕ
exit_of (exits code s) = code
exit_of (ready s) = 1

open_areas-exit :
    (os : Os) (src : DevNode) (before : Proc)
    → ((is_ready (open_areas os src before) ≡ true) ↔ HasAreas os src)
      × (exit_of (open_areas os src before) ≡ 1)
unfolding open_areas map_areas
open_areas-exit os src before = ground arith

after_rounds-ended :
    (x : Exit) (src : DevNode) (s : Proc)
    → x ≢ unfinished
    → (t : Proc) × (after_rounds x src s ≡ some (0, t))
after_rounds-ended enqcmd_limit src s h = (_, refl)
after_rounds-ended poll_limit src s h = (_, refl)
after_rounds-ended moved src s h = (_, refl)
after_rounds-ended unfinished src s h = absurd (h refl)
after_rounds-ended (failed n) src s h = (_, refl)

module _ (os : Os) (m : Setting) (blen fuel : ℕ) (src : DevNode) (before : Proc)
    (ended : rounds_of m blen fuel ≢ unfinished) where
  copy_areas-code :
      (s : Proc)
      → (code : ℕ) × (t : Proc) × (copy_areas m blen fuel src s ≡ some (code, t))
        × ((code ≡ 0) ↔ (map_wq blen m.devices m.start m.opens m.mmap ≢ none))
  unfolding copy_areas
  copy_areas-code s = elim (Option-cases (map_wq blen m.devices m.start m.opens m.mmap)) [
    | inl unmapped ↦ (
      1,
      s,
      copy_areas-unmapped m blen fuel src s unmapped,
      (λ e. absurd (omega arith), λ h. absurd (h unmapped)),
    )
    | inr (portal, mapped) ↦
        let (t, e) = after_rounds-ended (rounds_of m blen fuel) src s ended in
        (0, t, rw (mapped, copy_areas) e, (λ z u. cc, λ h. refl))
  ]

  dsa_main-by_areas :
      (r : Areas)
      → open_areas os src before ≡ r
      → ((is_ready r ≡ true) ↔ HasAreas os src)
      → exit_of r ≡ 1
      → (code : ℕ) × (t : Proc) × (dsa_main os m blen fuel src before ≡ some (code, t))
        × ((code ≡ 0) ↔ (HasAreas os src × (map_wq blen m.devices m.start m.opens m.mmap ≢ none)))
  unfolding dsa_main
  dsa_main-by_areas (exits code s) e areas one =
      (code, s, rw (e, dsa_main) refl, (λ z. absurd (omega arith), λ (a, b). absurd cc))
  dsa_main-by_areas (ready s) e areas one =
      let (code, t, ran, iff) = copy_areas-code s in
      (code, t, rw (e, dsa_main) ran, (λ z. (areas.0 refl, iff.0 z), λ (a, b). iff.1 b))

-- If some round `j` would report no page fault, the programs that copy by the engine end within
-- `j + 1` rounds, and the exit code is 0 exactly when both areas and a portal are mapped, whether or
-- not the engine has made the copy and `memcmp` has found the areas equal.
pub dsa_main-code :
    (os : Os) (m : Setting) (blen fuel j : ℕ) (src : DevNode) (before : Proc)
    → j < fuel
    → op_status (m.attempts j).comp.status ≢ page_fault_nobof
    → (code : ℕ) × (t : Proc) × (dsa_main os m blen fuel src before ≡ some (code, t))
      × ((code ≡ 0) ↔ (HasAreas os src × (map_wq blen m.devices m.start m.opens m.mmap ≢ none)))
dsa_main-code os m blen fuel j src before h quiet =
    let (areas, one) = open_areas-exit os src before in
    dsa_main-by_areas os m blen fuel src before (rounds_of-ended m blen fuel j h quiet) _ refl areas
      one
