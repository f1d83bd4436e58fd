-- ===== src/Engine/Bytes.antt =====
-- A byte-wise engine, and a memory, for examples.
use dsa_test.Base.{ℕ, ◌+◌, ◌-◌, ◌%◌, ◌<◌, ◌≡◌, ◌&&◌, arith, ltb, leb, if◌then◌else◌}
use dsa_test.Desc.Batch.{Transfer}
use dsa_test.Engine.{Engine, Memory, Outside}

abbrev pub copy_bytes : Transfer → Memory → Memory
copy_bytes t m a = if leb t.dst a && ltb a (t.dst + t.len) then m (t.src + (a - t.dst)) else m a

pub copy_bytes-moved :
    (t : Transfer) (m : Memory) (k : ℕ) → k < t.len → copy_bytes t m (t.dst + k) ≡ m (t.src + k)
copy_bytes-moved t m k h =
    let offset : t.dst + k - t.dst ≡ k = omega arith in rw offset (ground arith)

pub copy_bytes-kept :
    (t : Transfer) (m : Memory) (a : ℕ) → Outside a t.dst t.len → copy_bytes t m a ≡ m a
copy_bytes-kept t m a h = ground arith

abbrev pub byte_engine : Engine
byte_engine = record {
  move = copy_bytes;
  moved = copy_bytes-moved;
  order = λ ts. ts;
  order-SameCopies = λ ts t. (λ i. i, λ i. i);
  kept = copy_bytes-kept;
}

-- Every byte is its address, cut to a byte.
abbrev pub counting : Memory
counting a = a % 256
