-- ===== src/Engine/Order.antt =====
-- Copies that are apart can be made in any order.
use dsa_test.Base.{
  ℕ, ◌+◌, ◌≤◌, ◌<◌, ◌≡◌, sym, ap, ◌∙◌, ◌⊎◌, inl, inr, List, [], ◌∷◌, Has, here, there, arith,
}
use dsa_test.Desc.Batch.{Transfer}
use dsa_test.Engine.{Engine, Memory, move_all}

-- The destinations of two copies have no address in common.
abbrev pub ApartTo : Transfer → Transfer → Type 0
ApartTo t u = (t.dst + t.len ≤ u.dst) ⊎ (u.dst + u.len ≤ t.dst)

-- The source of `t` has no address in common with the destination of `u`.
abbrev pub Unwritten : Transfer → Transfer → Type 0
Unwritten t u = (t.src + t.len ≤ u.dst) ⊎ (u.dst + u.len ≤ t.src)

module _ (e : Engine) (t : Transfer) (k : ℕ) (in_range : k < t.len) where
  src_kept : (u : Transfer) (m : Memory) → Unwritten t u → e.move u m (t.src + k) ≡ m (t.src + k)
  src_kept u m (inl h) = e.kept u m (t.src + k) (inl (omega arith))
  src_kept u m (inr h) = e.kept u m (t.src + k) (inr (omega arith))

  dst_kept : (u : Transfer) (m : Memory) → ApartTo t u → e.move u m (t.dst + k) ≡ m (t.dst + k)
  dst_kept u m (inl h) = e.kept u m (t.dst + k) (inl (omega arith))
  dst_kept u m (inr h) = e.kept u m (t.dst + k) (inr (omega arith))

  -- One more copy does not change a byte that has been copied.
  still_copied :
      (v : ℕ) (u : Transfer) (m : Memory)
      → (t ≡ u) ⊎ ApartTo t u
      → m (t.src + k) ≡ v
      → m (t.dst + k) ≡ v
      → e.move u m (t.dst + k) ≡ v
  still_copied v u m (inl same) s d =
      ap (λ w. e.move w m (t.dst + k)) (sym same) ∙ e.moved t m k in_range ∙ s
  still_copied v u m (inr apart) s d = dst_kept u m apart ∙ d

  stays_copied :
      (v : ℕ) (us : List Transfer) (m : Memory)
      → ((u : Transfer) → Has u us → Unwritten t u)
      → ((u : Transfer) → Has u us → (t ≡ u) ⊎ ApartTo t u)
      → m (t.src + k) ≡ v
      → m (t.dst + k) ≡ v
      → move_all e us m (t.dst + k) ≡ v
  unfolding move_all
  stays_copied v [] m unwritten apart s d = d
  stays_copied v (u ∷ us) m unwritten apart s d =
      stays_copied v us (e.move u m) (λ w i. unwritten w (there i)) (λ w i. apart w (there i))
        (src_kept u m (unwritten u here) ∙ s) (still_copied v u m (apart u here) s d)

  pub move_all-moved :
      (us : List Transfer) (m : Memory)
      → ((u : Transfer) → Has u us → Unwritten t u)
      → ((u : Transfer) → Has u us → (t ≡ u) ⊎ ApartTo t u)
      → Has t us
      → move_all e us m (t.dst + k) ≡ m (t.src + k)
  unfolding move_all
  move_all-moved [] m unwritten apart i = elim i [ ]
  move_all-moved (_ ∷ us) m unwritten apart here =
      stays_copied _ us (e.move t m) (λ w i. unwritten w (there i)) (λ w i. apart w (there i))
        (src_kept t m (unwritten t here)) (e.moved t m k in_range)
  move_all-moved (u ∷ us) m unwritten apart (there i) =
      move_all-moved us (e.move u m) (λ w j. unwritten w (there j)) (λ w j. apart w (there j)) i
      ∙ src_kept u m (unwritten u here)
