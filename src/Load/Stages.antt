-- ===== src/Load/Stages.antt =====
-- The stages of `my_init` of DSA_Kernelspace_Test/1.kernel_test/kernel_test_sgtable.c, one by one.
use dsa_test.Base.{
  ◌⊎◌, inl, inr, ◌≡◌, refl, ap, ◌∙◌, true, false, Option, none, some, ℤ, pos, is_neg, Outcome,
  returns, fault, Bool-cases, arith, ◌>>=◌,
}
use dsa_test.Setup.{allocated, any_null, enomem}
use dsa_test.Setup.Region.{vfree_all-allocated}
use dsa_test.Probe
use dsa_test.Probe.{IdxdWq}
use dsa_test.Load.{
  Os, Held, nothing, init_region, run_test, make_tables, sgtable_to_dma_map, after_dsa,
  after_region, my_init, copy,
}

-- What the module holds with its areas, before the queue.
abbrev pub allotted : Os → Held
allotted os = record nothing { areas = allocated os.vmallocs; reserved = allocated os.vmallocs }

my_init-null : (os : Os) → any_null os.vmallocs ≡ true → my_init os ≡ returns (enomem, nothing)
unfolding my_init init_region after_region
my_init-null os failed = rw failed (rw (vfree_all-allocated os.vmallocs) refl)

pub my_init-allotted :
    (os : Os) → any_null os.vmallocs ≡ false → my_init os ≡ after_region os (pos 0, allotted os)
unfolding my_init init_region
my_init-allotted os there = rw there refl

pub my_init-channel :
    (os : Os) (chan : Option IdxdWq)
    → any_null os.vmallocs ≡ false
    → Probe.init_dsa os.get_channel os.devices ≡ returns (pos 0, chan)
    → my_init os ≡ after_dsa os (record (allotted os) { chan = chan })
unfolding after_region
my_init-channel os chan there found = my_init-allotted os there ∙ rw found refl

-- What stays as it is up to the copy
pub record Kept (s t : Held) : Type 0 where
  pub areas : t.areas ≡ s.areas
  pub reserved : t.reserved ≡ s.reserved
  pub chan : t.chan ≡ s.chan
  pub structs : t.structs ≡ 4

unfoldable pub ready : Os → Held → Held
unfolding run_test make_tables sgtable_to_dma_map
ready os s = sgtable_to_dma_map os (make_tables os (run_test os s))

pub ready-Kept : (os : Os) (s : Held) → Kept s (ready os s)
unfolding ready sgtable_to_dma_map make_tables run_test
ready-Kept os s = record {
  areas = ground arith;
  reserved = ground arith;
  chan = ground arith;
  structs = ground arith;
}

pub copy-without_channel : (os : Os) (s : Held) → s.chan ≡ none → copy os s ≡ fault
unfolding copy
copy-without_channel os s no_chan = rw no_chan refl

after_dsa-without_channel : (os : Os) (s : Held) → s.chan ≡ none → after_dsa os s ≡ fault
unfolding after_dsa ready
after_dsa-without_channel os s no_chan =
    rw (copy-without_channel os (ready os s) ((ready-Kept os s).chan ∙ no_chan)) refl

pub outcome {ℓ} : {A : Type ℓ} (o : Outcome A) → ((a : A) × (o ≡ returns a)) ⊎ (o ≡ fault)
outcome (returns a) = inl (a, refl)
outcome fault = inr refl

pub option {ℓ} : {A : Type ℓ} (o : Option A) → (o ≡ none) ⊎ ((a : A) × (o ≡ some a))
option none = inl refl
option (some a) = inr (a, refl)

-- What a load comes to, and what `init_dsa` has given then.
abbrev pub LoadCases : Os → Type 0
LoadCases os =
    let found = Probe.init_dsa os.get_channel os.devices in
    ((any_null os.vmallocs ≡ true) × (my_init os ≡ returns (enomem, nothing)))
    ⊎ ((any_null os.vmallocs ≡ false)
        × (((dsa_result : ℤ) × (chan : Option IdxdWq) × (found ≡ returns (dsa_result, chan))
              × (is_neg dsa_result ≡ true)
              × (my_init os ≡ returns (dsa_result, allotted os)))
            ⊎ ((found ≡ fault) × (my_init os ≡ fault))
            ⊎ ((dsa_result : ℤ) × (found ≡ returns (dsa_result, none))
                × (is_neg dsa_result ≡ false)
                × (my_init os ≡ fault))
            ⊎ ((dsa_result : ℤ) × (chan : IdxdWq) × (found ≡ returns (dsa_result, some chan))
                × (is_neg dsa_result ≡ false)
                × (my_init os ≡ after_dsa os (record (allotted os) { chan = some chan })))))

-- A load in which a `vmalloc` fails returns -ENOMEM and holds nothing. Otherwise, where `init_dsa`
-- returns an error, the load returns that error, and leaves all areas allocated and their pages
-- reserved, though the kernel never calls `my_exit` then. Where `init_dsa` reads through NULL, or
-- returns no error and gives no channel, `my_init` reads through NULL; and with a channel it goes
-- on to the tables.
pub load-cases : (os : Os) → LoadCases os
unfolding after_region
load-cases os = elim (Bool-cases (any_null os.vmallocs)) [
  | inl failed ↦ inl (failed, my_init-null os failed)
  | inr there ↦
      let begun = my_init-allotted os there in
      inr (
        there,
        elim (outcome (Probe.init_dsa os.get_channel os.devices)) [
          | inr faults ↦ inr (inl (faults, begun ∙ rw faults refl))
          | inl ((r, chan), ran) ↦ elim (Bool-cases (is_neg r)) [
            | inl bad ↦ inl (r, chan, ran, bad, begun ∙ rw (ran, ◌>>=◌) (rw bad refl))
            | inr good ↦
                let on : my_init os ≡ after_dsa os (record (allotted os) { chan = chan }) =
                  begun ∙ rw (ran, ◌>>=◌) (rw good refl) in
                elim (option chan) [
                  | inl none_given ↦ inr (
                      inr (
                        inl (
                          r,
                          ran ∙ ap (λ o. returns (r, o)) none_given,
                          good,
                          on
                              ∙ after_dsa-without_channel os (record (allotted os) { chan = chan })
                                  none_given,
                        )))
                  | inr (c, given) ↦ inr (
                      inr (
                        inr (
                          r,
                          c,
                          ran ∙ ap (λ o. returns (r, o)) given,
                          good,
                          on ∙ ap (λ o. after_dsa os (record (allotted os) { chan = o })) given,
                        )))
                ]
          ]
        ],
      )
]

pub after_dsa-ready :
    (os : Os) (s : Held) → after_dsa os s ≡ (copy os (ready os s) >>= λ s'. returns (pos 0, s'))
unfolding after_dsa ready
after_dsa-ready os s = refl
