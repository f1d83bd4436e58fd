-- ===== src/Portal.antt =====
-- `map_wq` and `main` of
-- DSA_Userspace_Test/memmove_CPU_VS_DSA-userguide_ref-codes_TEST/memmove_userguide_ref.c.
--
-- What libaccel-config tells of the devices and their queues, what `open` and `mmap` give, and what
-- `memcmp` finds are arguments. `path` and `wq_found` are not initialised, so their first values are
-- arguments too. The bytes that `main` writes to its source are in `Memmove`. The loop over the rounds
-- is `Retry.rounds`.
pub mod Search
pub mod Outcomes
mod Examples
use dsa_test.Base.{
  ℕ, zero, suc, ◌+◌, ◌≡◌, Bool, true, false, ◌&&◌, Option, none, some, List, [], ◌∷◌, bit_or, ltb,
  if◌then◌else◌,
}
use dsa_test.Desc.{HwDesc, zeroed, opcode_memmove, op_flag_rcr, op_flag_crav, op_flag_cc}
use dsa_test.Retry.{Attempt, Exit, unfinished, rounds, exit_code}

-- A queue as libaccel-config shows it: whether it refuses its path, what the buffer holds after the
-- question, its largest transfer, and whether its type is ACCFG_WQT_USER and its mode
-- ACCFG_WQ_SHARED.
pub record AccfgWq : Type 0 where
  pub path_error : Bool
  pub path : ℕ
  pub max_transfer_size : ℕ
  pub is_user : Bool
  pub is_shared : Bool

-- The two variables that the loops set.
pub record Found : Type 0 where
  pub path : ℕ
  pub wq_found : Bool

-- `none` is `continue`, and otherwise what `wq_found` becomes.
pub verdict : ℕ → AccfgWq → Option Bool
verdict blen w =
    if w.path_error
    then none
    else if ltb w.max_transfer_size blen
    then none
    else some (w.is_user && w.is_shared)

abbrev note : Option Bool → ℕ → Found → Found
note none path s = record s { path = path }
note (some b) path s = record { path = path; wq_found = b }

abbrev takes : Option Bool → Bool
takes (some true) = true
takes _ = false

-- `accfg_wq_foreach`
pub scan_wqs : ℕ → List AccfgWq → Found → Found
unfolding verdict
scan_wqs blen [] s = s
scan_wqs blen (w ∷ ws) s =
    let t = note (verdict blen w) w.path s in
    let rest = scan_wqs blen ws t in if takes (verdict blen w) then t else rest

-- `accfg_device_foreach`
pub scan_devices : ℕ → List (List AccfgWq) → Found → Found
unfolding scan_wqs
scan_devices blen [] s = s
scan_devices blen (ws ∷ devices) s =
    let t = scan_wqs blen ws s in
    let rest = scan_devices blen devices t in if t.wq_found then t else rest

-- `open` and `mmap` of a path; `none` is MAP_FAILED.
pub open_portal : (ℕ → Bool) → (ℕ → Option ℕ) → ℕ → Option ℕ
open_portal opens mmap path = if opens path then mmap path else none

-- `map_wq`
pub map_wq : ℕ → List (List AccfgWq) → Found → (ℕ → Bool) → (ℕ → Option ℕ) → Option ℕ
unfolding scan_devices open_portal
map_wq blen devices start opens mmap =
    let s = scan_devices blen devices start in
    if s.wq_found then open_portal opens mmap s.path else none

-- What `main` depends on.
pub record Setting : Type 0 where
  pub devices : List (List AccfgWq)
  pub start : Found
  pub opens : ℕ → Bool
  pub mmap : ℕ → Option ℕ
  pub attempts : ℕ → Attempt
  pub src : ℕ
  pub dst : ℕ
  pub comp : ℕ
  pub differs : Bool

abbrev pub enq_retry_max : ℕ
enq_retry_max = 1000

abbrev pub poll_retry_max : ℕ
poll_retry_max = 10000

-- The descriptor before the first round.
unfoldable pub memmove_desc : ℕ → ℕ → ℕ → ℕ → HwDesc
memmove_desc blen src dst comp = record zeroed {
  opcode = opcode_memmove;
  flags = bit_or (bit_or op_flag_rcr op_flag_crav) op_flag_cc;
  xfer_size = blen;
  src_addr = src;
  dst_addr = dst;
  completion_addr = comp;
}

-- How the rounds of `main` end, of which there are at most `fuel`.
abbrev pub rounds_of : Setting → ℕ → ℕ → Exit
rounds_of m blen fuel =
    (rounds enq_retry_max poll_retry_max m.attempts fuel 0 (memmove_desc blen m.src m.dst m.comp)).0

-- `none` while the rounds go on
abbrev leave_with : Exit → ℕ → Option ℕ
leave_with unfinished code = none
leave_with _ code = some code

-- `main`: its exit code, or `none` when it has not ended after `fuel` rounds.
pub main : Setting → ℕ → ℕ → Option ℕ
unfolding map_wq memmove_desc
main m blen fuel = elim (map_wq blen m.devices m.start m.opens m.mmap) [
  | none ↦ some 1
  | some wq_portal ↦
      leave_with (rounds_of m blen fuel) (exit_code (rounds_of m blen fuel) m.differs)
]
