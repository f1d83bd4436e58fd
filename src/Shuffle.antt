-- ===== src/Shuffle.antt =====
-- `random_arr` of DSA_Kernelspace_Test/3.kernel_test_N_DSAs/kernel_test_sgtable_batch.c: the order in
-- which pages go into the tables. `draws i` is what call `i` of `get_random_u32` returns. The array
-- that `kmalloc` gives is the argument `arr`, whatever it holds. The lines that print page frame
-- numbers change nothing and are left out.
pub mod Uniform
pub mod Entries
mod Examples
use dsa_test.Base.{ℕ, zero, suc, ◌+◌, ◌/◌, ◌%◌, List, get_or, set}

-- `for (i = 0; i < NPAGES; i++) arr[i] = i;`, with `n` rounds left
pub fill : ℕ → ℕ → List ℕ → List ℕ
fill zero i arr = arr
fill (suc n) i arr = fill n (i + 1) (set arr i i)

-- `tmp2 = arr[i]; arr[i] = arr[tmp]; arr[tmp] = tmp2;`
pub swap : List ℕ → ℕ → ℕ → List ℕ
swap arr i tmp = let tmp2 = get_or arr i 0 in set (set arr i (get_or arr tmp 0)) tmp tmp2

-- the second loop of `random_arr`, with `n` rounds left
pub mix : (ℕ → ℕ) → ℕ → ℕ → ℕ → List ℕ → List ℕ
mix draws npages zero i arr = arr
mix draws npages (suc n) i arr = mix draws npages n (i + 1) (swap arr i (draws i / 2 % npages))

-- `random_arr`
pub random_arr : (ℕ → ℕ) → ℕ → List ℕ → List ℕ
unfolding fill mix
random_arr draws npages arr = mix draws npages npages 0 (fill npages 0 arr)
