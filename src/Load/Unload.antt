-- ===== src/Load/Unload.antt =====
-- What `my_exit` of DSA_Kernelspace_Test/1.kernel_test/kernel_test_sgtable.c leaves of a load.
use dsa_test.Base.{
  Option, not, ◌&&◌, get_or, arith, ◌⊎◌, inl, inr, ℕ, ◌≡◌, refl, ◌∙◌, true, false, none, some, [],
  ℤ, pos, is_neg, Outcome, returns, fault, List,
}
use dsa_test.Desc.{Desc}
use dsa_test.Setup.{allocated, vfree_all}
use dsa_test.Setup.Region.{vfree_all-allocated}
use dsa_test.Probe
use dsa_test.Probe.{IdxdWq}
use dsa_test.Copy.Loop.{Entry, End, submit_failed, finished, dsa_copy}
use dsa_test.Single.{vmalloc_to_sgtable}
use dsa_test.Load.{
  run_test, make_tables, sgtable_to_dma_map, Os, Held, entries_of, after_copy, copy, my_init,
  my_exit, exit_module,
}
use dsa_test.Load.Stages.{
  allotted, Kept, ready, ready-Kept, option, outcome, copy-without_channel, after_dsa-ready,
  load-cases,
}

-- The pages that `vmalloc_to_sgtable` sets in `sgt1` and `sgt2`
abbrev pub tables_made : Os → List ℕ × List ℕ
tables_made os =
    let areas = allocated os.vmallocs in
    vmalloc_to_sgtable (os.alloc_fails 1) (os.alloc_fails 2) os.to_page (get_or areas 0 0)
      (get_or areas 1 0) os.npages

-- What is left of a load `s` after the module was unloaded: the four `struct sg_table`s, which nobody
-- frees; a mapping that `test` had left; and, where a submission had failed, both tables of the copy
-- as they were before it: with the pages that `vmalloc_to_sgtable` had set, and mapped where
-- `dma_map_sgtable` had mapped them. After any other end of the copy they are free.
pub record Unloaded (os : Os) (s t : Held) : Type 0 where
  pub areas : t.areas ≡ []
  pub reserved : t.reserved ≡ []
  pub chan : t.chan ≡ none
  pub structs : t.structs ≡ 4
  pub test_tables : t.test_tables ≡ false
  pub test_mapped :
      t.test_mapped ≡ (run_test os (record (allotted os) { chan = s.chan })).test_mapped
  pub tables :
      ((log : List Desc) × (s.copied ≡ some (submit_failed log))
        × (t.sgt1 ≡ (tables_made os).0)
        × (t.sgt2 ≡ (tables_made os).1)
        × (t.mapped1 ≡ not (os.map_fails 1))
        × (t.mapped2 ≡ (not (os.map_fails 1) && not (os.map_fails 2))))
      ⊎ ((log : List Desc) × (es : List Entry) × (poll : ℕ) × (s.copied
            ≡ some (finished log es poll))
          × (t.sgt1 ≡ [])
          × (t.sgt2 ≡ [])
          × (t.mapped1 ≡ false)
          × (t.mapped2 ≡ false))

-- What the module holds when the copy begins.
record Made (os : Os) (s : Held) : Type 0 where
  sgt1 : s.sgt1 ≡ (tables_made os).0
  sgt2 : s.sgt2 ≡ (tables_made os).1
  mapped1 : s.mapped1 ≡ not (os.map_fails 1)
  mapped2 : s.mapped2 ≡ (not (os.map_fails 1) && not (os.map_fails 2))
  test_mapped : s.test_mapped ≡ (run_test os (record (allotted os) { chan = s.chan })).test_mapped

ready-Made : (os : Os) (c : Option IdxdWq) → Made os (ready os (record (allotted os) { chan = c }))
unfolding ready sgtable_to_dma_map make_tables run_test
ready-Made os c = record {
  sgt1 = ground arith;
  sgt2 = ground arith;
  mapped1 = ground arith;
  mapped2 = ground arith;
  test_mapped = ground arith;
}

copy-cases :
    (os : Os) (s : Held)
    → (copy os s ≡ fault)
      ⊎ ((c : IdxdWq) × (how : End) × (s.chan ≡ some c) × (copy os s ≡ returns (after_copy how s)))
unfolding copy
copy-cases os s = elim (option s.chan) [
  | inl no_chan ↦ inl (copy-without_channel os s no_chan)
  | inr (c, given) ↦
      elim (outcome (
        dsa_copy os.copies (os.queue c) (entries_of os s.mapped1 s.sgt1)
          (entries_of os s.mapped2 s.sgt2))) [
            | inl (how, ran) ↦ inr (c, how, given, rw given (rw ran refl))
            | inr faults ↦ inl (rw given (rw faults refl))
          ]
]

-- `my_exit` after a copy
exit_ran :
    (os : Os) (s : Held) (c : IdxdWq)
    → s.chan ≡ some c
    → my_exit os s ≡ returns (record (exit_module os s) { chan = none })
unfolding my_exit Probe.my_exit
exit_ran os s c given = rw given refl

freed : (os : Os) (live : List ℕ) → live ≡ allocated os.vmallocs → vfree_all os.vmallocs live ≡ []
freed os live e = rw e (vfree_all-allocated os.vmallocs)

exit_after_copy :
    (os : Os) (s0 s : Held) (c : IdxdWq) (how : End)
    → s0.areas ≡ allocated os.vmallocs
    → s0.reserved ≡ allocated os.vmallocs
    → s0.chan ≡ some c
    → Kept s0 s
    → Made os s
    → (t : Held) × (my_exit os (after_copy how s) ≡ returns t) × Unloaded os (after_copy how s) t
unfolding exit_module after_copy
exit_after_copy os s0 s c (submit_failed log) a r given k m =
    let s1 = after_copy (submit_failed log) s in
    (
      record (exit_module os s1) { chan = none },
      exit_ran os s1 c (k.chan ∙ given),
      record {
        areas = freed os s.areas (k.areas ∙ a);
        reserved = freed os s.reserved (k.reserved ∙ r);
        chan = refl;
        structs = k.structs;
        test_tables = refl;
        test_mapped = m.test_mapped;
        tables = inl (log, refl, m.sgt1, m.sgt2, m.mapped1, m.mapped2);
      },
    )
exit_after_copy os s0 s c (finished log es poll) a r given k m =
    let s1 = after_copy (finished log es poll) s in
    (
      record (exit_module os s1) { chan = none },
      exit_ran os s1 c (k.chan ∙ given),
      record {
        areas = freed os s.areas (k.areas ∙ a);
        reserved = freed os s.reserved (k.reserved ∙ r);
        chan = refl;
        structs = k.structs;
        test_tables = refl;
        test_mapped = m.test_mapped;
        tables = inr (log, es, poll, refl, refl, refl, refl, refl);
      },
    )

returned :
    {r r' : ℤ} {s s' : Held} {o : Outcome (ℤ × Held)}
    → o ≡ returns (r, s)
    → o ≡ returns (r', s')
    → (r ≡ r') × (s ≡ s')
returned h g = (cc, cc)

not_both : {A : Type 0} {a : A} {o : Outcome A} → o ≡ returns a → o ≡ fault → ⊥
not_both h g = cc

bad_load : {r q : ℤ} → r ≡ q → is_neg q ≡ true → is_neg r ≡ false → ⊥
bad_load e bad ok = cc

-- After every load that succeeds, `my_exit` returns: it gives back the areas, their reservations, the
-- channel and the tables of `test`. The four `struct sg_table`s stay allocated, and a mapping that
-- `test` left stays. Where a submission had failed, both tables of the copy keep the pages that
-- `vmalloc_to_sgtable` set, and the mappings that `dma_map_sgtable` made; where the copy ended in
-- another way, they are free and unmapped.
pub load-Unloaded :
    (os : Os) (r : ℤ) (s : Held)
    → is_neg r ≡ false
    → my_init os ≡ returns (r, s)
    → (t : Held) × (my_exit os s ≡ returns t) × Unloaded os s t
load-Unloaded os r s ok loaded = elim (load-cases os) [
  | inl (failed, ran) ↦ absurd (bad_load (returned loaded ran).0 refl ok)
  | inr (there, inl (q, chan, found, bad, ran)) ↦ absurd (bad_load (returned loaded ran).0 bad ok)
  | inr (there, inr (inl (found, faults))) ↦ absurd (not_both loaded faults)
  | inr (there, inr (inr (inl (q, found, good, faults)))) ↦ absurd (not_both loaded faults)
  | inr (there, inr (inr (inr (q, c, found, good, ran)))) ↦
      let s0 = record (allotted os) { chan = some c } in
      let ready_runs = ran ∙ after_dsa-ready os s0 in
      elim (copy-cases os (ready os s0)) [
        | inl faults ↦ absurd (not_both loaded (ready_runs ∙ rw faults refl))
        | inr (c', how, given, copied) ↦
            let end : my_init os ≡ returns (pos 0, after_copy how (ready os s0)) =
              ready_runs ∙ rw copied refl in
            let (e, same) = returned loaded end in
            rw same (
              exit_after_copy os s0 (ready os s0) c how refl refl refl (ready-Kept os s0)
                (ready-Made os (some c)))
      ]
]
