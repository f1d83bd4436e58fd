-- ===== src/Retry/Resume/Examples.antt =====
-- A copy of 8192 bytes that meets one page fault.
use dsa_test.Base.{ℕ, zero, suc, ◌+◌, ◌≡◌, ◌<◌, ◌≤◌, refl, false, ltb, ◌==◌, if◌then◌else◌, arith}
use dsa_test.Desc.{HwDesc, zeroed}
use dsa_test.Retry.{Attempt, rounds}
use dsa_test.Retry.Resume.{AllFaulted, IsRest, completed, rounds-IsRest, EndsAfter}

abbrev a_hw : HwDesc
a_hw = record zeroed { src_addr = 0x1000; dst_addr = 0x9000; xfer_size = 8192 }

-- A page fault after 4096 bytes in round 0, and success from then on.
abbrev faulting : ℕ → Attempt
faulting k = record {
  rejects = λ i. false;
  busy = λ i. ltb i 2;
  comp =
      if k == 0
      then record { status = 3; bytes_completed = 4096 }
      else record { status = 1; bytes_completed = 0 };
}

completed-later : (k j : ℕ) → 0 < k → completed faulting k j ≡ 0
unfolding completed
completed-later k zero h = refl
completed-later k (suc j) h =
    let late : (k == 0) ≡ false = ground arith in
    rw late (omega (arith, completed-later (k + 1) j (omega arith)))

completed-faulting : (j : ℕ) → completed faulting 0 j ≤ 8192
unfolding completed
completed-faulting zero = omega arith
completed-faulting (suc j) = omega (arith, completed-later 1 j (omega arith))

rounds-IsRest_example :
    (j : ℕ) × AllFaulted faulting 0 j
    × EndsAfter 3 3 faulting 5 0 (rounds 3 3 faulting 5 0 a_hw) j
    × IsRest a_hw (completed faulting 0 j) (rounds 3 3 faulting 5 0 a_hw).1
rounds-IsRest_example =
    rounds-IsRest 3 3 faulting 5 0 a_hw
      (record { src = omega arith; dst = omega arith; size = omega arith }) completed-faulting
