-- ===== src/Tables/Cleanup/Cases.antt =====
-- When the clean-up of `vmalloc_to_sgtable` of
-- DSA_Kernelspace_Test/3.kernel_test_N_DSAs/kernel_test_sgtable.c, and of kernel_test_sgtable_batch.c
-- there, can free the tables.
use dsa_test.Base.{
  ℕ, zero, suc, ◌+◌, ◌*◌, ◌≤◌, ◌<◌, ◌≡◌, ◌⊎◌, inl, inr, refl, ap, Bool, true, false, Option, none,
  some, List, ◌∷◌, returns, fault, Bool-cases, ℕ_discrete, arith,
}
use dsa_test.Tables.{TablePair, table_nents, alloc_tables, deal, vmalloc_to_sgtable}
use dsa_test.Tables.Cleanup.{
  Slot, uninitialised, without_entries, with_entries, new_tables, sg_alloc_tables, free_sgt,
  left_tables, slot_after,
}

free_sgt-new :
    (w : ℕ) → free_sgt (new_tables without_entries w) ≡ returns (new_tables without_entries w)
unfolding free_sgt new_tables
free_sgt-new zero = refl
free_sgt-new (suc w) = rw (free_sgt-new w) refl

-- Where the second loop fills all tables, a missing page ends with `free_sgt`.
dealt :
    (w : ℕ) (ts : List (Slot × Slot)) (pages : Option (List TablePair))
    → free_sgt ts ≡ returns (new_tables without_entries w)
    → ts ≡ new_tables with_entries w
    → (elim pages [ none ↦ free_sgt ts | some dealt_out ↦ returns ts ])
      ≡ returns (new_tables (slot_after pages) w)
unfolding slot_after
dealt w ts none freed made = freed
dealt w ts (some dealt_out) freed made = ap returns made

-- The clean-up can free all tables that the second loop leaves, and this loop fills them all when it
-- does not fail.
record Freeable (alloc_fails : ℕ → Bool) (k w : ℕ) (given : Slot) : Type 0 where
  all_free :
      free_sgt (sg_alloc_tables alloc_fails k (new_tables given w)).1
      ≡ returns (new_tables without_entries w)
  all_made :
      alloc_tables alloc_fails w k ≡ false
      → (sg_alloc_tables alloc_fails k (new_tables given w)).1 ≡ new_tables with_entries w

module _ (alloc_fails : ℕ → Bool) where
  same_failure :
      (given : Slot) (w k : ℕ)
      → (sg_alloc_tables alloc_fails k (new_tables given w)).0 ≡ alloc_tables alloc_fails w k
  unfolding new_tables sg_alloc_tables alloc_tables
  same_failure given zero k = refl
  same_failure given (suc w) k = ground (arith, same_failure given w (k + 2))

  zeroed-Freeable : (w k : ℕ) → Freeable alloc_fails k w without_entries
  unfolding free_sgt new_tables sg_alloc_tables alloc_tables
  zeroed-Freeable zero k = record { all_free = refl; all_made = λ h. refl }
  zeroed-Freeable (suc w) k =
      let rest = zeroed-Freeable w (k + 2) in
      elim (Bool-cases (alloc_fails k)) [
        | inl src ↦ record { all_free = rw (src, free_sgt-new w) refl; all_made = λ h. absurd cc }
        | inr src ↦ elim (Bool-cases (alloc_fails (k + 1))) [
          | inl dst ↦ record {
            all_free = rw (src, dst) (rw (free_sgt-new w) refl);
            all_made = λ h. let bad = rw (src, dst) at h in absurd cc;
          }
          | inr dst ↦ record {
            all_free = rw (src, dst) (rw rest.all_free refl);
            all_made = λ h.
                rw (src, dst)
                  (ap (λ ts. (with_entries, with_entries) ∷ ts)
                    (rest.all_made (rw (src, dst) at h)));
          }
        ]
      ]

  -- A call of `sg_alloc_table` fails that is not the last one; `k` calls come before.
  abbrev Early : ℕ → ℕ → Type 0
  Early k w = (j : ℕ) × (k ≤ j) × (j + 1 < k + w * 2) × (alloc_fails j ≡ true)

  -- What such a failure, or none, does to the clean-up.
  record Broken (k w : ℕ) : Type 0 where
    early : Early k w
    stops : (sg_alloc_tables alloc_fails k (new_tables uninitialised w)).0 ≡ true
    faults : free_sgt (sg_alloc_tables alloc_fails k (new_tables uninitialised w)).1 ≡ fault

  record Whole (k w : ℕ) : Type 0 where
    none_early : (j : ℕ) → k ≤ j → j + 1 < k + w * 2 → alloc_fails j ≡ false
    freeable : Freeable alloc_fails k w uninitialised

  last_pair-Whole : (k : ℕ) → alloc_fails k ≡ false → alloc_fails (k + 1) ≡ true → Whole k 1
  unfolding free_sgt new_tables sg_alloc_tables alloc_tables
  last_pair-Whole k src dst = record {
    none_early = λ j h g. let here : j ≡ k = omega arith in rw here src;
    freeable = record {
      all_free = rw (src, dst) refl;
      all_made = λ h. let bad = rw (src, dst) at h in absurd cc;
    };
  }

  more-Whole :
      (k w : ℕ)
      → alloc_fails k ≡ false
      → alloc_fails (k + 1) ≡ false
      → Whole (k + 2) w
      → Whole k (suc w)
  unfolding free_sgt new_tables sg_alloc_tables alloc_tables
  more-Whole k w src dst rest = record {
    none_early = λ j h g. elim (ℕ_discrete j k) [
      | yes e ↦ rw e src
      | no other ↦ elim (ℕ_discrete j (k + 1)) [
        | yes e ↦ rw e dst
        | no later ↦ rest.none_early j (omega arith) (omega arith)
      ]
    ];
    freeable = record {
      all_free = rw (src, dst) (rw rest.freeable.all_free refl);
      all_made = λ h.
          rw (src, dst)
            (ap (λ ts. (with_entries, with_entries) ∷ ts)
              (rest.freeable.all_made (rw (src, dst) at h)));
    };
  }

  pair_fails :
      (w k : ℕ)
      → alloc_fails k ≡ false
      → alloc_fails (k + 1) ≡ true
      → Broken k (suc w) ⊎ Whole k (suc w)
  unfolding free_sgt new_tables sg_alloc_tables
  pair_fails zero k src dst = inr (last_pair-Whole k src dst)
  pair_fails (suc w) k src dst = inl (record {
    early = (k + 1, omega arith, omega arith, dst);
    stops = rw (src, dst) refl;
    faults = rw (src, dst) refl;
  })

  clean_up_cases : (w k : ℕ) → Broken k w ⊎ Whole k w
  unfolding free_sgt new_tables sg_alloc_tables
  clean_up_cases zero k = inr (record {
    none_early = λ j h g. absurd (omega arith);
    freeable = record { all_free = refl; all_made = λ h. refl };
  })
  clean_up_cases (suc w) k = elim (Bool-cases (alloc_fails k)) [
    | inl src ↦ inl (record {
      early = (k, omega arith, omega arith, src);
      stops = rw src refl;
      faults = rw src refl;
    })
    | inr src ↦ elim (Bool-cases (alloc_fails (k + 1))) [
      | inl dst ↦ pair_fails w k src dst
      | inr dst ↦ elim (clean_up_cases w (k + 2)) [
        | inl broken ↦
            let (j, h, g, fails) = broken.early in
            inl (record {
              early = (j, omega arith, omega arith, fails);
              stops = rw (src, dst) broken.stops;
              faults = rw (src, dst) (rw broken.faults refl);
            })
        | inr whole ↦ inr (more-Whole k w src dst whole)
      ]
    ]
  ]

  module _ (to_page : ℕ → Option ℕ) (area area2 : ℕ) (arr : List ℕ) (npages w : ℕ) where
    -- How the tables are left where nothing faults.
    abbrev tables_after : List (Slot × Slot)
    tables_after =
        new_tables (slot_after (vmalloc_to_sgtable alloc_fails to_page area area2 arr npages w)) w

    left_tables-Freeable :
        (given : Slot)
        → Freeable alloc_fails 0 w given
        → left_tables given alloc_fails to_page area area2 arr npages w ≡ returns tables_after
    unfolding left_tables vmalloc_to_sgtable slot_after
    left_tables-Freeable given v = elim (Bool-cases (alloc_tables alloc_fails w 0)) [
      | inl failed ↦ rw (same_failure given w 0, failed) v.all_free
      | inr made ↦
          rw (same_failure given w 0, made)
            (dealt w _ (deal to_page area area2 arr npages (table_nents npages w) w 0) v.all_free
              (v.all_made made))
    ]

    left_tables-Broken :
        Broken 0 w → left_tables uninitialised alloc_fails to_page area area2 arr npages w ≡ fault
    unfolding left_tables
    left_tables-Broken broken = rw broken.stops broken.faults

    -- `vmalloc_to_sgtable` of kernel_test_sgtable_batch.c never faults: with structs from `kzalloc`, it
    -- leaves all tables filled, or, when it fails, all without entries. That of kernel_test_sgtable.c,
    -- with structs from `kmalloc`, does the same unless a call of `sg_alloc_table` fails that is not the
    -- last one: then its clean-up frees a table that was never initialised.
    pub left_tables-cases :
        (left_tables without_entries alloc_fails to_page area area2 arr npages w
          ≡ returns tables_after)
        × (((j : ℕ) × (j + 1 < w * 2)
              × (alloc_fails j ≡ true)
              × (left_tables uninitialised alloc_fails to_page area area2 arr npages w ≡ fault))
            ⊎ (((j : ℕ) → j + 1 < w * 2 → alloc_fails j ≡ false)
                × (left_tables uninitialised alloc_fails to_page area area2 arr npages w
                    ≡ returns tables_after)))
    left_tables-cases = (
      left_tables-Freeable without_entries (zeroed-Freeable w 0),
      elim (clean_up_cases w 0) [
        | inl broken ↦
            let (j, h, g, fails) = broken.early in
            inl (j, omega arith, fails, left_tables-Broken broken)
        | inr whole ↦ inr (
          λ j h. whole.none_early j (omega arith) (omega arith),
          left_tables-Freeable uninitialised whole.freeable,
        )
      ],
    )
