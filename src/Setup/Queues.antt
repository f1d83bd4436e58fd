-- ===== src/Setup/Queues.antt =====
-- The queues that `init_dsa` of
-- DSA_Kernelspace_Test/3.kernel_test_N_DSAs/kernel_test_sgtable_batch.c takes.
use dsa_test.Base.{
  ◌==◌, ◌<◌, ◌⊎◌, ℕ, suc, ◌+◌, ◌≡◌, refl, ap, sym, ◌∙◌, false, Option, List, [], ◌∷◌, ◌++◌, arith,
  length, length-append, pos, Bool-cases, inl, inr, ap₂, if◌then◌else◌, Bool, true,
}
use dsa_test.Setup.{
  sgtable_to_dma_map, IdxdWq, IdxdDevice, EnabledWq, is_usable, scan_wqs, candidates, scan_devices,
  init_dsa, enodev,
}

-- Numbered in order, from `n` on.
abbrev pub numbered : ℕ → List IdxdWq → List EnabledWq
numbered n [] = []
numbered n (wq ∷ wqs) = record { enabled_wq_num = n; wq = wq } ∷ numbered (n + 1) wqs

abbrev pub usable : List IdxdWq → List IdxdWq
usable [] = []
usable (wq ∷ wqs) = let rest = usable wqs in if is_usable wq then wq ∷ rest else rest

-- Every usable queue of every device in use.
abbrev pub usable_all : List (Option IdxdDevice) → List IdxdWq
usable_all [] = []
usable_all (d ∷ ds) = usable (candidates d) ++ usable_all ds

numbered-append :
    (n : ℕ) (xs ys : List IdxdWq)
    → numbered n (xs ++ ys) ≡ numbered n xs ++ numbered (n + length xs) ys
numbered-append n [] ys = let e : n ≡ n + 0 = omega arith in ap (λ k. numbered k ys) e
numbered-append n (x ∷ xs) ys =
    let e : n + 1 + length xs ≡ n + suc (length xs) = omega arith in
    ap (λ l. record { enabled_wq_num = n; wq = x } ∷ l)
      (numbered-append (n + 1) xs ys ∙ ap (λ k. numbered (n + 1) xs ++ numbered k ys) e)

scan_wqs-numbered :
    (n : ℕ) (wqs : List IdxdWq)
    → scan_wqs n wqs ≡ (numbered n (usable wqs), n + length (usable wqs))
unfolding scan_wqs
scan_wqs-numbered n [] = ap (λ k. ([], k)) (omega arith)
scan_wqs-numbered n (wq ∷ wqs) = elim (Bool-cases (is_usable wq)) [
  | inl is ↦
      let e : n + 1 + length (usable wqs) ≡ n + suc (length (usable wqs)) = omega arith in
      rw (is, scan_wqs)
        (rw (scan_wqs-numbered (n + 1) wqs) (ap (λ k. (numbered n (wq ∷ usable wqs), k)) e))
  | inr is_not ↦ rw (is_not, scan_wqs) (scan_wqs-numbered n wqs)
]

scan_devices-numbered :
    (n : ℕ) (ds : List (Option IdxdDevice))
    → scan_devices n ds ≡ (numbered n (usable_all ds), n + length (usable_all ds))
unfolding scan_devices
scan_devices-numbered n [] = ap (λ k. ([], k)) (omega arith)
scan_devices-numbered n (d ∷ ds) =
    let here = usable (candidates d) in
    let e : n + length here + length (usable_all ds) ≡ n + length (here ++ usable_all ds) =
      omega (arith, length-append here (usable_all ds)) in
    rw (scan_wqs-numbered n (candidates d), scan_devices-numbered (n + length here) ds)
      (ap₂ (λ l k. (l, k)) (sym (numbered-append n here (usable_all ds))) e)

result :
    (wqs : List IdxdWq)
    → (((if 0 + length wqs == 0 then enodev else pos 0) ≡ enodev) × (wqs ≡ []))
      ⊎ (((if 0 + length wqs == 0 then enodev else pos 0) ≡ pos 0) × (0 < length wqs))
result [] = inl (refl, refl)
result (wq ∷ wqs) =
    let some_left : (0 + suc (length wqs) == 0) ≡ false = ground arith in
    inr (rw some_left refl, omega arith)

-- `init_dsa` takes every usable queue of every device in use, in the order of the devices, and
-- numbers them 0, 1, 2, …; it returns -ENODEV when there is none, and 0 when there is one.
pub init_dsa-numbered :
    (devices : List (Option IdxdDevice))
    → ((init_dsa devices).1 ≡ numbered 0 (usable_all devices))
      × ((((init_dsa devices).0 ≡ enodev) × (usable_all devices ≡ []))
          ⊎ (((init_dsa devices).0 ≡ pos 0) × (0 < length (usable_all devices))))
unfolding init_dsa
init_dsa-numbered devices = rw (scan_devices-numbered 0 devices) (refl, result (usable_all devices))

-- Both tables of every queue, in the order in which they are mapped.
abbrev pub both_tables : List EnabledWq → List (ℕ × Bool)
both_tables [] = []
both_tables (w ∷ wqs) = (w.enabled_wq_num, false) ∷ (w.enabled_wq_num, true) ∷ both_tables wqs

-- `sgtable_to_dma_map` maps the tables of the queues in order, source before destination, up to the
-- first call that fails; when none fails it maps them all.
pub sgtable_to_dma_map-both :
    (fails : ℕ → Bool → Bool) (wqs : List EnabledWq)
    → ((rest : List (ℕ × Bool)) × (both_tables wqs ≡ sgtable_to_dma_map fails wqs ++ rest))
      × (((k : ℕ) (dst : Bool) → fails k dst ≡ false)
          → sgtable_to_dma_map fails wqs ≡ both_tables wqs)
unfolding sgtable_to_dma_map
sgtable_to_dma_map-both fails [] = (([], refl), λ fine. refl)
sgtable_to_dma_map-both fails (w ∷ wqs) =
    let ((rest, prefix), all) = sgtable_to_dma_map-both fails wqs in
    (
      elim (Bool-cases (fails w.enabled_wq_num false)) [
        | inl src ↦ (both_tables (w ∷ wqs), rw (src, sgtable_to_dma_map) refl)
        | inr src ↦ elim (Bool-cases (fails w.enabled_wq_num true)) [
          | inl dst ↦
              ((w.enabled_wq_num, true) ∷ both_tables wqs, rw (src, dst, sgtable_to_dma_map) refl)
          | inr dst ↦ (
            rest,
            rw (src, dst, sgtable_to_dma_map)
                (ap (λ l. (w.enabled_wq_num, false) ∷ (w.enabled_wq_num, true) ∷ l) prefix),
          )
        ]
      ],
      λ fine.
          rw (fine w.enabled_wq_num false, fine w.enabled_wq_num true, sgtable_to_dma_map)
            (ap (λ l. (w.enabled_wq_num, false) ∷ (w.enabled_wq_num, true) ∷ l) (all fine)),
    )
