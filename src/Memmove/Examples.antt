-- ===== src/Memmove/Examples.antt =====
-- Runs of the two programs of DSA_Userspace_Test/memmove_CPU_VS_DSA-userguide_ref-codes_TEST.
use dsa_test.Base.{
  ℕ, ◌+◌, ◌*◌, ◌%◌, ◌≤◌, ◌<◌, ◌≡◌, ◌≢◌, ◌↔◌, refl, true, false, none, some, [], ◌∷◌, arith, inl,
}
use dsa_test.Engine.Bytes.{copy_bytes, copy_bytes-moved, copy_bytes-kept, counting}
use dsa_test.Retry.{moved, rounds, round}
use dsa_test.Retry.Resume.{completed}
use dsa_test.Retry.Bytes.{byte_effects, faulting, completed-faulting}
use dsa_test.Portal.{AccfgWq, Setting, map_wq, rounds_of}
use dsa_test.Memmove.{Libc, npages, blen, fill_from, soft, dsa_memory, dsa}
use dsa_test.Memmove.Same.{OnStack, dsa-code, dsa-soft}

-- Two pages of four bytes each: the letters of offsets 0 and 4
fill_two_pages : fill_from 4 8 100 3 0 counting 104 ≡ b'e'
unfolding fill_from
fill_two_pages = refl

few : (j : ℕ) → completed faulting 0 j ≤ blen 4096
few j = omega (arith, completed-faulting j)

abbrev a_wq : AccfgWq
a_wq = record {
  path_error = false;
  path = 9;
  max_transfer_size = 0x80000000;
  is_user = true;
  is_shared = true;
}

abbrev a_setting : Setting
a_setting = record {
  devices = (a_wq ∷ []) ∷ [];
  start = record { path = 0; wq_found = false };
  opens = λ p. true;
  mmap = λ p. some 4096;
  attempts = faulting;
  src = 0x1000000;
  dst = 0x2000000;
  comp = 0x900000;
  differs = false;
}

on_stack : OnStack a_setting 4096
on_stack = record {
  src = omega arith;
  dst = omega arith;
  len = omega arith;
  apart = inl (omega arith);
}

dsa-code_example :
    (dsa a_setting (byte_effects faulting) 4096 2 counting ≢ none)
    × ((dsa a_setting (byte_effects faulting) 4096 2 counting ≡ some 0) ↔ (
        (map_wq (blen 4096) ((a_wq ∷ []) ∷ []) a_setting.start a_setting.opens a_setting.mmap
          ≢ none)
        × (rounds_of a_setting (blen 4096) 2 ≡ moved)))
dsa-code_example =
    dsa-code a_setting (byte_effects faulting) 4096 2 1 counting on_stack few (omega arith)
      (λ e. absurd (omega arith))

abbrev a_libc : Libc
a_libc = record { memmove = copy_bytes; moved = copy_bytes-moved; kept = copy_bytes-kept }

faulting-moved : rounds_of a_setting (blen 4096) 2 ≡ moved
unfolding rounds round
faulting-moved = refl

dsa-soft_example :
    ((i : ℕ)
      → i < blen 4096
      → dsa_memory a_setting (byte_effects faulting) 4096 2 counting (0x2000000 + i)
        ≡ (soft a_libc 4096 0x1000000 0x2000000 counting).0 (0x2000000 + i))
    × ((q : ℕ)
        → q < npages
        → 0 < 4096
        → dsa_memory a_setting (byte_effects faulting) 4096 2 counting (0x2000000 + q * 4096)
          ≡ b'a' + q * 4096 % 10)
    × ((soft a_libc 4096 0x1000000 0x2000000 counting).1 ≡ false)
dsa-soft_example =
    dsa-soft a_libc a_setting (byte_effects faulting) 4096 2 counting on_stack few faulting-moved
