-- ===== src/Engine.antt =====
-- What the engine makes of the copies that the tests ask it for. The engine is hardware, and enters
-- as an `Engine`: how one MEMMOVE changes memory, with what DSA documents of it. It carries out the
-- copies of a list in any order, and perhaps some of them more than once.
--
-- The lists of copies are those of the submissions of
-- DSA_Kernelspace_Test/1.kernel_test/kernel_test_sgtable_batch.c (`Copy.batch_lists`) and of
-- DSA_Kernelspace_Test/3.kernel_test_N_DSAs/kernel_test_sgtable_batch.c (`Dispatch.dispatch`).
-- `area` is the memory behind a table, which the tests compare with `memcmp` in the end.
pub mod Order
pub mod Areas
pub mod Copied
pub mod Pages
pub mod Singles
pub mod Bytes
pub mod Whole
mod Examples
use dsa_test.Base.{ℕ, zero, suc, ◌+◌, ◌≤◌, ◌<◌, ◌≡◌, ◌⊎◌, ◌↔◌, List, [], ◌∷◌, ◌++◌, Has}
use dsa_test.Desc.{Seg}
use dsa_test.Desc.Batch.{Transfer}

-- A byte for every address.
abbrev pub Memory : Type 0
Memory = ℕ → ℕ

-- `a` is none of the `n` addresses from `b` on.
abbrev pub Outside : ℕ → ℕ → ℕ → Type 0
Outside a b n = (a < b) ⊎ (b + n ≤ a)

-- The same copies, in any order and number.
abbrev pub SameCopies : List Transfer → List Transfer → Type 0
SameCopies us ts = (t : Transfer) → Has t us ↔ Has t ts

-- MEMMOVE: the bytes of the destination become those that the source held before, also where the
-- two overlap, and no other byte changes. `order` is the order in which the engine carries out a list.
pub record Engine : Type 0 where
  pub move : Transfer → Memory → Memory
  pub moved : (t : Transfer) (m : Memory) (k : ℕ) → k < t.len → move t m (t.dst + k) ≡ m (t.src + k)
  pub order : List Transfer → List Transfer
  pub order-SameCopies : (ts : List Transfer) → SameCopies (order ts) ts
  pub kept : (t : Transfer) (m : Memory) (a : ℕ) → Outside a t.dst t.len → move t m a ≡ m a

-- The copies of a list, one after the other.
pub move_all : Engine → List Transfer → Memory → Memory
move_all e [] m = m
move_all e (t ∷ ts) m = move_all e ts (e.move t m)

-- What the engine makes of a list of copies.
pub carry_out : Engine → List Transfer → Memory → Memory
unfolding move_all
carry_out e ts m = move_all e (e.order ts) m

-- `n` bytes from address `a` on
pub bytes : Memory → ℕ → ℕ → List ℕ
bytes m a zero = []
bytes m a (suc n) = m a ∷ bytes m (a + 1) n

-- The bytes behind a table.
pub area : Memory → List Seg → List ℕ
unfolding bytes
area m [] = []
area m (s ∷ ss) = bytes m s.dma_address s.dma_len ++ area m ss

-- Two ranges of addresses have none in common.
abbrev pub Disjoint : Seg → Seg → Type 0
Disjoint a b =
    (a.dma_address + a.dma_len ≤ b.dma_address) ⊎ (b.dma_address + b.dma_len ≤ a.dma_address)

-- Every destination is apart from all the sources, and from the other destinations.
pub data IsApart (srcs : List Seg) : List Seg → Type 0 where
  apart_nil : IsApart srcs []
  apart_cons :
      {d : Seg} {ds : List Seg}
      → ((s : Seg) → Has s srcs → Disjoint d s)
      → ((e : Seg) → Has e ds → Disjoint d e)
      → IsApart srcs ds
      → IsApart srcs (d ∷ ds)
