-- ===== src/Setup/Unmapped.antt =====
-- The end of `dsa_copy` of DSA_Kernelspace_Test/3.kernel_test_N_DSAs/kernel_test_sgtable_batch.c, which
-- unmaps and frees the tables of all queues.
use dsa_test.Base.{
  ℕ, ◌≡◌, ◌↔◌, inl, inr, refl, ap, sym, ◌∙◌, Bool, true, false, List, [], ◌∷◌, Has, here, there,
  Bool-cases,
}
use dsa_test.Setup.{EnabledWq, sgtable_to_dma_map, unmap_tables, unmapped, freed}

-- Each table of every queue
abbrev tables_of : List EnabledWq → List (ℕ × Bool)
tables_of [] = []
tables_of (w ∷ wqs) = (w.enabled_wq_num, false) ∷ (w.enabled_wq_num, true) ∷ tables_of wqs

unmap_tables-all :
    (wqs : List EnabledWq)
    → (unmapped (unmap_tables wqs) ≡ tables_of wqs) × (freed (unmap_tables wqs) ≡ tables_of wqs)
unfolding unmap_tables
unmap_tables-all [] = (refl, refl)
unmap_tables-all (w ∷ wqs) = let (u, f) = unmap_tables-all wqs in (rw u refl, rw f refl)

-- No call of `dma_map_sgtable` for these queues fails.
abbrev pub NoneFails : (ℕ → Bool → Bool) → List EnabledWq → Type 0
NoneFails fails wqs = (w : EnabledWq) (b : Bool) → Has w wqs → fails w.enabled_wq_num b ≡ false

mapped-all :
    (fails : ℕ → Bool → Bool) (wqs : List EnabledWq)
    → NoneFails fails wqs
    → sgtable_to_dma_map fails wqs ≡ tables_of wqs
unfolding sgtable_to_dma_map
mapped-all fails [] none_fails = refl
mapped-all fails (w ∷ wqs) none_fails =
    rw (none_fails w false here, none_fails w true here)
      (ap (λ ts. (w.enabled_wq_num, false) ∷ (w.enabled_wq_num, true) ∷ ts)
        (mapped-all fails wqs (λ v b i. none_fails v b (there i))))

mapped-cons :
    (fails : ℕ → Bool → Bool) (w : EnabledWq) (wqs : List EnabledWq) (ts : List (ℕ × Bool))
    → sgtable_to_dma_map fails (w ∷ wqs) ≡ (w.enabled_wq_num, false) ∷ (w.enabled_wq_num, true) ∷ ts
    → (fails w.enabled_wq_num false ≡ false)
      × (fails w.enabled_wq_num true ≡ false)
      × (sgtable_to_dma_map fails wqs ≡ ts)
unfolding sgtable_to_dma_map
mapped-cons fails w wqs ts e = elim (Bool-cases (fails w.enabled_wq_num false)) [
  | inl failed ↦ let none_left = rw failed at e in absurd cc
  | inr src ↦ elim (Bool-cases (fails w.enabled_wq_num true)) [
    | inl failed ↦ let one_left = rw (src, failed) at e in absurd cc
    | inr dst ↦ let both = rw (src, dst) at e in (src, dst, cc)
  ]
]

mapped-NoneFails :
    (fails : ℕ → Bool → Bool) (wqs : List EnabledWq)
    → sgtable_to_dma_map fails wqs ≡ tables_of wqs
    → NoneFails fails wqs
mapped-NoneFails fails [] e v b i = elim i [ ]
mapped-NoneFails fails (w ∷ wqs) e v false here = (mapped-cons fails w wqs (tables_of wqs) e).0
mapped-NoneFails fails (w ∷ wqs) e v true here = (mapped-cons fails w wqs (tables_of wqs) e).1
mapped-NoneFails fails (w ∷ wqs) e v b (there i) =
    mapped-NoneFails fails wqs (mapped-cons fails w wqs (tables_of wqs) e).2 v b i

-- The end of `dsa_copy` frees the tables that it unmaps. These are exactly those that
-- `sgtable_to_dma_map` has mapped, each as often and in the same order, if and only if no call of
-- `dma_map_sgtable` has failed: behind a failure it unmaps tables that are not mapped.
pub dsa_copy-unmaps :
    (fails : ℕ → Bool → Bool) (wqs : List EnabledWq)
    → (freed (unmap_tables wqs) ≡ unmapped (unmap_tables wqs))
      × ((unmapped (unmap_tables wqs) ≡ sgtable_to_dma_map fails wqs) ↔ NoneFails fails wqs)
dsa_copy-unmaps fails wqs =
    let (all_unmapped, all_freed) = unmap_tables-all wqs in
    (
      all_freed ∙ sym all_unmapped,
      (
        λ e. mapped-NoneFails fails wqs (sym e ∙ all_unmapped),
        λ none_fails. all_unmapped ∙ sym (mapped-all fails wqs none_fails),
      ),
    )
