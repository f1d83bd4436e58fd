-- ===== src/Portal/Examples.antt =====
-- Two devices, of which the second has a shared user queue.
use dsa_test.Base.{
  ℕ, ◌≡◌, refl, true, false, Option, none, some, List, [], ◌∷◌, Has, here, there, ◌*◌,
}
use dsa_test.Retry.{Attempt}
use dsa_test.Portal.{AccfgWq, Setting, map_wq, verdict}
use dsa_test.Portal.Search.{map_wq-first}

abbrev kernel_wq : AccfgWq
kernel_wq = record {
  path_error = true;
  path = 7;
  max_transfer_size = 2097152;
  is_user = false;
  is_shared = true;
}

abbrev small_wq : AccfgWq
small_wq = record {
  path_error = false;
  path = 8;
  max_transfer_size = 4096;
  is_user = true;
  is_shared = true;
}

abbrev user_wq : AccfgWq
user_wq = record {
  path_error = false;
  path = 9;
  max_transfer_size = 2097152;
  is_user = true;
  is_shared = true;
}

abbrev devices : List (List AccfgWq)
devices = (kernel_wq ∷ small_wq ∷ []) ∷ (user_wq ∷ []) ∷ []

abbrev mmap : ℕ → Option ℕ
mmap path = some (path * 4096)

map_wq-first_example :
    map_wq 1048576 devices (record { path = 0; wq_found = false }) (λ p. true) mmap ≡ some 36864
unfolding verdict
map_wq-first_example =
    map_wq-first 1048576 devices (record { path = 0; wq_found = false }) (λ p. true) mmap refl

skipped : (w : AccfgWq) → Has w (kernel_wq ∷ small_wq ∷ []) → verdict 1048576 w ≡ none
unfolding verdict
skipped w here = refl
skipped w (there here) = refl
skipped w (there (there i)) = elim i [ ]

abbrev succeeds : Attempt
succeeds = record {
  rejects = λ n. false;
  busy = λ n. false;
  comp = record { status = 1; bytes_completed = 0 };
}

abbrev a_setting : Setting
a_setting = record {
  devices = devices;
  start = record { path = 0; wq_found = false };
  opens = λ p. true;
  mmap = mmap;
  attempts = λ k. succeeds;
  src = 0x10000;
  dst = 0x200000;
  comp = 0x900000;
  differs = false;
}
