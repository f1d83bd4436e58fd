-- ===== src/Portal/Search.antt =====
-- Which queue `map_wq` of
-- DSA_Userspace_Test/memmove_CPU_VS_DSA-userguide_ref-codes_TEST/memmove_userguide_ref.c opens.
use dsa_test.Base.{
  ℕ, ◌≡◌, refl, ap, ◌∙◌, Bool, true, false, not, ◌&&◌, Option, none, some, List, [], ◌∷◌, ◌++◌, ltb,
  if◌then◌else◌, concat, Bool-cases, Option-cases, inl, inr, Has, here, there, arith,
}
use dsa_test.Portal.{
  AccfgWq, Found, verdict, note, takes, scan_wqs, scan_devices, open_portal, map_wq,
}

-- A shared user queue that takes transfers of `blen` bytes and tells its path.
abbrev pub is_suitable : ℕ → AccfgWq → Bool
is_suitable blen w =
    not w.path_error && (not (ltb w.max_transfer_size blen) && (w.is_user && w.is_shared))

abbrev pub find {ℓ} : {A : Type ℓ} → (A → Bool) → List A → Option A
find p [] = none
find p (x ∷ xs) = if p x then some x else find p xs

-- What the search has found, if it started without a queue.
record Agrees (o : Option AccfgWq) (s : Found) : Type 0 where
  misses : o ≡ none → s.wq_found ≡ false
  hits : (w : AccfgWq) → o ≡ some w → (s.wq_found ≡ true) × (s.path ≡ w.path)

abbrev path_of : Option AccfgWq → ℕ
path_of none = 0
path_of (some w) = w.path

verdict-takes : (blen : ℕ) (w : AccfgWq) → takes (verdict blen w) ≡ is_suitable blen w
unfolding verdict
verdict-takes blen w = ground arith

note-taken :
    (v : Option Bool) (path : ℕ) (s : Found)
    → takes v ≡ true
    → ((note v path s).wq_found ≡ true) × ((note v path s).path ≡ path)
note-taken none path s h = absurd cc
note-taken (some true) path s h = (refl, refl)
note-taken (some false) path s h = absurd cc

note-passed :
    (v : Option Bool) (path : ℕ) (s : Found)
    → takes v ≡ false
    → s.wq_found ≡ false
    → (note v path s).wq_found ≡ false
note-passed none path s h f = f
note-passed (some true) path s h f = absurd cc
note-passed (some false) path s h f = refl

scan_wqs-Agrees :
    (blen : ℕ) (ws : List AccfgWq) (s : Found)
    → s.wq_found ≡ false
    → Agrees (find (is_suitable blen) ws) (scan_wqs blen ws s)
unfolding scan_wqs
scan_wqs-Agrees blen [] s h = record { misses = λ e. h; hits = λ w e. absurd cc }
scan_wqs-Agrees blen (w ∷ ws) s h =
    let v = verdict blen w in
    let same = verdict-takes blen w in
    elim (Bool-cases (is_suitable blen w)) [
      | inl good ↦
          let taken = note-taken v w.path s (same ∙ good) in
          rw (good, same ∙ good)
            (record { misses = λ e. absurd cc; hits = λ w' e. (taken.0, taken.1 ∙ ap path_of e) })
      | inr bad ↦
          rw (bad, same ∙ bad)
            (scan_wqs-Agrees blen ws (note v w.path s) (note-passed v w.path s (same ∙ bad) h))
    ]

find-append :
    {A : Type 0} (p : A → Bool) (xs ys : List A)
    → find p (xs ++ ys) ≡ elim (find p xs) [ some x ↦ some x | none ↦ find p ys ]
find-append p [] ys = refl
find-append p (x ∷ xs) ys = elim (Bool-cases (p x)) [
  | inl yes_x ↦ rw yes_x
  | inr no_x ↦ rw no_x (find-append p xs ys)
]

scan_devices-Agrees :
    (blen : ℕ) (devices : List (List AccfgWq)) (s : Found)
    → s.wq_found ≡ false
    → Agrees (find (is_suitable blen) (concat devices)) (scan_devices blen devices s)
unfolding scan_devices
scan_devices-Agrees blen [] s h = record { misses = λ e. h; hits = λ w e. absurd cc }
scan_devices-Agrees blen (ws ∷ devices) s h =
    let a = scan_wqs-Agrees blen ws s h in
    let split = find-append (is_suitable blen) ws (concat devices) in
    elim (Option-cases (find (is_suitable blen) ws)) [
      | inl none_here ↦
          let missed = a.misses none_here in
          rw (split, none_here, missed)
            (scan_devices-Agrees blen devices (scan_wqs blen ws s) missed)
      | inr (w, found) ↦
          let (hit, path) = a.hits w found in
          rw (split, found, hit)
            (record { misses = λ e. absurd cc; hits = λ w' e. (hit, path ∙ ap path_of e) })
    ]

-- Started without a queue, `map_wq` opens and maps the path of the first queue, in the order of the
-- devices and of their queues, that is a shared user queue, takes transfers of `blen` bytes and tells
-- its path; it fails when there is none.
pub map_wq-first :
    (blen : ℕ) (devices : List (List AccfgWq)) (start : Found) (opens : ℕ → Bool)
    (mmap : ℕ → Option ℕ)
    → start.wq_found ≡ false
    → map_wq blen devices start opens mmap ≡ elim (find (is_suitable blen) (concat devices)) [
      | none ↦ none
      | some w ↦ if opens w.path then mmap w.path else none
    ]
unfolding map_wq open_portal
map_wq-first blen devices start opens mmap h =
    let a = scan_devices-Agrees blen devices start h in
    elim (Option-cases (find (is_suitable blen) (concat devices))) [
      | inl nothing ↦ rw (nothing, a.misses nothing)
      | inr (w, found) ↦ let (hit, path) = a.hits w found in rw (found, hit, path)
    ]

-- The buffer after queues that were all passed over.
abbrev pub last_path : ℕ → List AccfgWq → ℕ
last_path path [] = path
last_path path (w ∷ ws) = last_path w.path ws

scan_wqs-skipped :
    (blen : ℕ) (ws : List AccfgWq) (s : Found)
    → ((w : AccfgWq) → Has w ws → verdict blen w ≡ none)
    → scan_wqs blen ws s ≡ record s { path = last_path s.path ws }
unfolding scan_wqs
scan_wqs-skipped blen [] s h = refl
scan_wqs-skipped blen (w ∷ ws) s h =
    rw (h w here) (scan_wqs-skipped blen ws (record s { path = w.path }) (λ w' i. h w' (there i)))

-- When the uninitialised `wq_found` is not 0 and every queue of the first device is passed over,
-- `map_wq` looks at no further device, and opens whatever the buffer holds then: the path of the last
-- of these queues, or what was on the stack.
pub map_wq-uninitialised :
    (blen : ℕ) (ws : List AccfgWq) (devices : List (List AccfgWq)) (start : Found)
    (opens : ℕ → Bool) (mmap : ℕ → Option ℕ)
    → start.wq_found ≡ true
    → ((w : AccfgWq) → Has w ws → verdict blen w ≡ none)
    → map_wq blen (ws ∷ devices) start opens mmap
      ≡ (if opens (last_path start.path ws) then mmap (last_path start.path ws) else none)
unfolding map_wq scan_devices open_portal
map_wq-uninitialised blen ws devices start opens mmap h skipped =
    rw (scan_wqs-skipped blen ws start skipped, h)
