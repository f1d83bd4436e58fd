-- ===== src/Setup/Region.antt =====
-- The memory that `init_region` of
-- DSA_Kernelspace_Test/3.kernel_test_N_DSAs/kernel_test_sgtable_batch.c takes.
use dsa_test.Base.{
  zero, length-append, length, ◌<◌, ◌-◌, arith, suc, ap, ◌⊎◌, ℕ, ◌≡◌, refl, ap, true, false, Option,
  none, some, List, [], ◌∷◌, arith, pos, ◌==◌, Bool-cases, inl, inr, ◌⊎◌, ◌∙◌,
}
use dsa_test.Setup.{
  memset, page_text, allocated, vfree, vfree_all, any_null, init_region, Held, enomem,
}

same : (a : ℕ) → (a == a) ≡ true
same a = ground arith

pub vfree_all-allocated : (areas : List (Option ℕ)) → vfree_all areas (allocated areas) ≡ []
unfolding vfree_all allocated vfree
vfree_all-allocated [] = refl
vfree_all-allocated (none ∷ areas) = vfree_all-allocated areas
vfree_all-allocated (some a ∷ areas) = rw (same a) (vfree_all-allocated areas)

-- `init_region`, starting with no area, takes all of its areas and returns 0, or it holds none and
-- returns -ENOMEM, which it does exactly when a `vmalloc` failed.
pub init_region-all_or_none :
    (vmallocs : List (Option ℕ)) (s : Held)
    → s.areas ≡ []
    → s.reserved ≡ []
    → ((any_null vmallocs ≡ false)
        × (init_region vmallocs s
            ≡ (pos 0, record s { areas = allocated vmallocs; reserved = allocated vmallocs })))
      ⊎ ((any_null vmallocs ≡ true) × (init_region vmallocs s ≡ (enomem, record s { areas = [] })))
unfolding init_region
init_region-all_or_none vmallocs s fresh unreserved = elim (Bool-cases (any_null vmallocs)) [
  | inl failed ↦ inr (
    failed,
    rw (failed, fresh)
        (ap (λ l. (enomem, l)) (ap (λ a. record s { areas = a }) (vfree_all-allocated vmallocs))),
  )
  | inr there ↦ inl (there, rw (there, fresh, unreserved) refl)
]

length-memset : (n : ℕ) → length (memset n) ≡ n
unfolding memset
length-memset zero = refl
length-memset (suc n) = ap suc (length-memset n)

-- A page is filled to its last byte and not beyond, when the label leaves room for its NUL.
pub length-page_text :
    (page_size : ℕ) (label : List ℕ)
    → length label < page_size
    → length (page_text page_size label) ≡ page_size
unfolding page_text
length-page_text page_size label h =
    length-append label (0 ∷ memset (page_size - length label - 1))
    ∙ omega (arith, length-memset (page_size - length label - 1))
