-- ===== src/Retry/Bytes.antt =====
-- A byte-wise engine for the rounds of one descriptor, for examples: it copies as many bytes as its
-- record shows. `faulting` is a run of the engine with one page fault.
use dsa_test.Base.{ℕ, zero, suc, refl, false, ◌≤◌, ◌+◌, ◌<◌, ◌≡◌, arith, ◌==◌, if◌then◌else◌, min}
use dsa_test.Desc.{HwDesc, comp_success}
use dsa_test.Engine.{Memory, Outside}
use dsa_test.Engine.Bytes.{copy_bytes, copy_bytes-moved}
use dsa_test.Retry.{Comp, Attempt}
use dsa_test.Retry.Resume.{completed}
use dsa_test.Retry.Copied.{Effects}

-- How many bytes a record shows as copied
abbrev shown : Comp → ℕ → ℕ
shown c size = if c.status == comp_success then size else min c.bytes_completed size

abbrev copy_shown : Comp → HwDesc → Memory → Memory
copy_shown c hw m =
    copy_bytes (record { src = hw.src_addr; dst = hw.dst_addr; len = shown c hw.xfer_size }) m

copy_shown-moved :
    (c : Comp) (hw : HwDesc) (m : Memory) (i : ℕ)
    → i < shown c hw.xfer_size
    → copy_shown c hw m (hw.dst_addr + i) ≡ m (hw.src_addr + i)
copy_shown-moved c hw m i h =
    copy_bytes-moved (record { src = hw.src_addr; dst = hw.dst_addr; len = shown c hw.xfer_size }) m
      i h

pub copy_shown-success :
    (c : Comp) (hw : HwDesc) (m : Memory) (i : ℕ)
    → c.status ≡ comp_success
    → i < hw.xfer_size
    → copy_shown c hw m (hw.dst_addr + i) ≡ m (hw.src_addr + i)
copy_shown-success c hw m i s h = copy_shown-moved c hw m i (ground arith)

pub copy_shown-part :
    (c : Comp) (hw : HwDesc) (m : Memory) (i : ℕ)
    → i < hw.xfer_size
    → i < c.bytes_completed
    → copy_shown c hw m (hw.dst_addr + i) ≡ m (hw.src_addr + i)
copy_shown-part c hw m i h g = copy_shown-moved c hw m i (ground arith)

pub copy_shown-kept :
    (c : Comp) (hw : HwDesc) (m : Memory) (a : ℕ)
    → Outside a hw.dst_addr hw.xfer_size
    → copy_shown c hw m a ≡ m a
copy_shown-kept c hw m a h = ground arith

abbrev pub byte_effects : (attempts : ℕ → Attempt) → Effects attempts
byte_effects attempts = record {
  run = λ k. copy_shown (attempts k).comp;
  success = λ k hw m i r s h. copy_shown-success (attempts k).comp hw m i s h;
  part = λ k hw m i r f h g. copy_shown-part (attempts k).comp hw m i h g;
  kept = λ k hw m a r h. copy_shown-kept (attempts k).comp hw m a h;
}

-- A page fault behind the first 5000 bytes, and then success
abbrev pub faulting : ℕ → Attempt
faulting k = record {
  rejects = λ i. false;
  busy = λ i. false;
  comp =
      if k == 0
      then record { status = 3; bytes_completed = 5000 }
      else record { status = 1; bytes_completed = 0 };
}

completed-later : (k j : ℕ) → 0 < k → completed faulting k j ≡ 0
unfolding completed
completed-later k zero h = refl
completed-later k (suc j) h =
    let late : (k == 0) ≡ false = ground arith in
    rw late (omega (arith, completed-later (k + 1) j (omega arith)))

pub completed-faulting : (j : ℕ) → completed faulting 0 j ≤ 5000
unfolding completed
completed-faulting zero = omega arith
completed-faulting (suc j) = omega (arith, completed-later 1 j (omega arith))
