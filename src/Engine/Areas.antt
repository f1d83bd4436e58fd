-- ===== src/Engine/Areas.antt =====
-- Tables whose entries have the same lengths, and what their copies make of the areas behind them.
use dsa_test.Base.{
  ℕ, zero, suc, ◌+◌, ◌<◌, ◌≡◌, refl, ap, ap₂, ◌∙◌, ◌⊎◌, inl, inr, List, [], ◌∷◌, ◌++◌, map, Has,
  here, there, arith,
}
use dsa_test.Desc.{Seg}
use dsa_test.Desc.Batch.{Transfer, entrywise}
use dsa_test.Engine.{
  Engine, Memory, move_all, carry_out, bytes, area, Disjoint, IsApart, apart_nil, apart_cons,
}
use dsa_test.Engine.Order.{ApartTo, Unwritten, move_all-moved}

-- The entries of two tables have the same lengths.
abbrev pub SameSizes : List Seg → List Seg → Type 0
SameSizes dsts srcs = map (λ d. d.dma_len) dsts ≡ map (λ s. s.dma_len) srcs

pub cons_head : {m n : ℕ} {ms ns : List ℕ} → m ∷ ms ≡ n ∷ ns → m ≡ n
cons_head h = cc

pub cons_tail : {m n : ℕ} {ms ns : List ℕ} → m ∷ ms ≡ n ∷ ns → ms ≡ ns
cons_tail h = cc

-- Where a copy of two tables comes from.
record Origin (dsts srcs : List Seg) (t : Transfer) : Type 0 where
  d : Seg
  s : Seg
  in_dsts : Has d dsts
  in_srcs : Has s srcs
  dst : t.dst ≡ d.dma_address
  src : t.src ≡ s.dma_address
  dst_len : t.len ≡ d.dma_len
  src_len : t.len ≡ s.dma_len

entrywise-Origin :
    (dsts srcs : List Seg) (t : Transfer)
    → SameSizes dsts srcs
    → Has t (entrywise dsts srcs)
    → Origin dsts srcs t
entrywise-Origin [] srcs t h i = elim i [ ]
entrywise-Origin (d ∷ dsts) [] t h i = elim i [ ]
entrywise-Origin (d ∷ dsts) (s ∷ srcs) t h here = record {
  d = d;
  s = s;
  in_dsts = here;
  in_srcs = here;
  dst = refl;
  src = refl;
  dst_len = refl;
  src_len = cc;
}
entrywise-Origin (d ∷ dsts) (s ∷ srcs) t h (there i) =
    let o = entrywise-Origin dsts srcs t (cons_tail h) i in
    record {
      d = o.d;
      s = o.s;
      in_dsts = there o.in_dsts;
      in_srcs = there o.in_srcs;
      dst = o.dst;
      src = o.src;
      dst_len = o.dst_len;
      src_len = o.src_len;
    }

IsApart-Disjoint :
    {srcs dsts : List Seg} (d s : Seg) → IsApart srcs dsts → Has d dsts → Has s srcs → Disjoint d s
IsApart-Disjoint d s apart_nil i j = elim i [ ]
IsApart-Disjoint d s (apart_cons a b rest) here j = a s j
IsApart-Disjoint d s (apart_cons a b rest) (there i) j = IsApart-Disjoint d s rest i j

entrywise-Unwritten :
    (dsts srcs : List Seg) (t u : Transfer)
    → SameSizes dsts srcs
    → IsApart srcs dsts
    → Has t (entrywise dsts srcs)
    → Has u (entrywise dsts srcs)
    → Unwritten t u
entrywise-Unwritten dsts srcs t u h a i j =
    let o = entrywise-Origin dsts srcs t h i in
    let q = entrywise-Origin dsts srcs u h j in
    let x = o.src in
    let y = o.src_len in
    let z = q.dst in
    let w = q.dst_len in
    elim (IsApart-Disjoint q.d o.s a q.in_dsts o.in_srcs) [
      | inl before ↦ inr (omega arith)
      | inr after ↦ inl (omega arith)
    ]

abbrev first : Seg → Seg → Transfer
first d s = record { src = s.dma_address; dst = d.dma_address; len = d.dma_len }

first-ApartTo :
    (d s : Seg) (dsts srcs : List Seg) (u : Transfer)
    → SameSizes dsts srcs
    → ((e : Seg) → Has e dsts → Disjoint d e)
    → Has u (entrywise dsts srcs)
    → ApartTo (first d s) u
first-ApartTo d s dsts srcs u h a j =
    let q = entrywise-Origin dsts srcs u h j in
    let z = q.dst in
    let w = q.dst_len in
    elim (a q.d q.in_dsts) [ inl before ↦ inl (omega arith) | inr after ↦ inr (omega arith) ]

ApartTo-sym : (t u : Transfer) → ApartTo t u → ApartTo u t
ApartTo-sym t u (inl h) = inr h
ApartTo-sym t u (inr h) = inl h

entrywise-ApartTo :
    {all : List Seg} (dsts srcs : List Seg) (t u : Transfer)
    → SameSizes dsts srcs
    → IsApart all dsts
    → Has t (entrywise dsts srcs)
    → Has u (entrywise dsts srcs)
    → (t ≡ u) ⊎ ApartTo t u
entrywise-ApartTo [] srcs t u h a i j = elim i [ ]
entrywise-ApartTo (d ∷ dsts) [] t u h a i j = elim i [ ]
entrywise-ApartTo (d ∷ dsts) (s ∷ srcs) t u h a here here = inl refl
entrywise-ApartTo (d ∷ dsts) (s ∷ srcs) t u h (apart_cons a b rest) here (there j) =
    inr (first-ApartTo d s dsts srcs u (cons_tail h) b j)
entrywise-ApartTo (d ∷ dsts) (s ∷ srcs) t u h (apart_cons a b rest) (there i) here =
    inr (ApartTo-sym (first d s) t (first-ApartTo d s dsts srcs t (cons_tail h) b i))
entrywise-ApartTo (d ∷ dsts) (s ∷ srcs) t u h (apart_cons a b rest) (there i) (there j) =
    entrywise-ApartTo dsts srcs t u (cons_tail h) rest i j

bytes-same :
    (m m' : Memory) (a b n : ℕ)
    → ((k : ℕ) → k < n → m' (a + k) ≡ m (b + k))
    → bytes m' a n ≡ bytes m b n
unfolding bytes
bytes-same m m' a b zero h = refl
bytes-same m m' a b (suc n) h =
    let a0 : a + 0 ≡ a = omega arith in
    let b0 : b + 0 ≡ b = omega arith in
    let now : m' a ≡ m b = rw (a0, b0) at (h 0 (omega arith)) in
    let next : (k : ℕ) → m' (a + suc k) ≡ m (b + suc k) → m' (a + 1 + k) ≡ m (b + 1 + k) = λ k e.
      let ak : a + 1 + k ≡ a + suc k = omega arith in
      let bk : b + 1 + k ≡ b + suc k = omega arith in rw (ak, bk) e in
    ap₂ ◌∷◌ now (bytes-same m m' (a + 1) (b + 1) n (λ k g. next k (h (suc k) (omega arith))))

area-same :
    (m m' : Memory) (dsts srcs : List Seg)
    → SameSizes dsts srcs
    → ((t : Transfer)
        → Has t (entrywise dsts srcs)
        → (k : ℕ) → k < t.len
        → m' (t.dst + k) ≡ m (t.src + k))
    → area m' dsts ≡ area m srcs
unfolding area
area-same m m' [] [] h c = refl
area-same m m' [] (s ∷ srcs) h c = absurd cc
area-same m m' (d ∷ dsts) [] h c = absurd cc
area-same m m' (d ∷ dsts) (s ∷ srcs) h c =
    let len : d.dma_len ≡ s.dma_len = cc in
    ap₂ ◌++◌
      (bytes-same m m' d.dma_address s.dma_address d.dma_len (c _ here)
        ∙ ap (bytes m s.dma_address) len)
      (area-same m m' dsts srcs (cons_tail h) (λ t i. c t (there i)))

-- Whatever order the engine takes, it makes the area behind the destinations equal to what was
-- behind the sources.
pub tables_copied :
    (e : Engine) (dsts srcs : List Seg)
    → SameSizes dsts srcs
    → IsApart srcs dsts
    → (m : Memory) → area (carry_out e (entrywise dsts srcs) m) dsts ≡ area m srcs
unfolding carry_out
tables_copied e dsts srcs h a m =
    let us = e.order (entrywise dsts srcs) in
    let same = e.order-SameCopies (entrywise dsts srcs) in
    area-same m (move_all e us m) dsts srcs h (λ t i k in_range.
      move_all-moved e t k in_range us m
        (λ u j. entrywise-Unwritten dsts srcs t u h a i ((same u).0 j))
        (λ u j. entrywise-ApartTo dsts srcs t u h a i ((same u).0 j)) ((same t).1 i))
