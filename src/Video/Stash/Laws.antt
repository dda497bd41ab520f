-- ===== src/Video/Stash/Laws.antt =====
-- A stash is sorted, never longer than its limit, and keeps what it is given but for the oldest.
use mathlib.Core.List.{Perm, perm_middle, append-nil}
use mathlib.Core.List.Perm
use interceptor.Common.{
  suc, ◌+◌, ◌≤◌, ◌<◌, ◌≡◌, refl, Bool, true, false, List, [], ◌∷◌, ◌++◌, arith, leb, if◌then◌else◌,
  length, drop, length-append, Bool-cases, inl, inr, All, All-append, All-drop-one,
}
use interceptor.Common.Int.{ℤ, ◌≤ℤ◌, leb_ℤ}
use interceptor.Video.Stash.{insert, sort, stash, clear_before, max_stashed_frames, trimmed}

module _ {ℓ} {A : Type ℓ} (key : A → ℤ) where
  abbrev AllFrom : ℤ → List A → Type 0
  AllFrom bound = All (λ x. bound ≤ℤ key x)

  -- Ascending, each entry against the next ones.
  abbrev pub IsSorted : List A → Type 0
  IsSorted [] = Unit
  IsSorted (x ∷ xs) = All (λ y. key x ≤ℤ key y) xs × IsSorted xs

  AllFrom-mono : (b c : ℤ) (xs : List A) → b ≤ℤ c → AllFrom c xs → AllFrom b xs
  AllFrom-mono b c [] h a = tt
  AllFrom-mono b c (x ∷ xs) h a = (omega arith, AllFrom-mono b c xs h a.1)

  AllFrom-insert :
      (b : ℤ) (x : A) (ys : List A) → b ≤ℤ key x → AllFrom b ys → AllFrom b (insert key x ys)
  unfolding insert
  AllFrom-insert b x [] h a = (h, tt)
  AllFrom-insert b x (y ∷ ys) h a = elim (Bool-cases (leb_ℤ (key x) (key y))) [
    | inl e ↦ rw (e, All) (h, a)
    | inr e ↦ rw (e, All) (a.0, AllFrom-insert b x ys h a.1)
  ]

  insert-IsSorted : (x : A) (ys : List A) → IsSorted ys → IsSorted (insert key x ys)
  unfolding insert
  insert-IsSorted x [] s = (tt, tt)
  insert-IsSorted x (y ∷ ys) s = elim (Bool-cases (leb_ℤ (key x) (key y))) [
    | inl e ↦
        rw (e, IsSorted) ((ground arith, AllFrom-mono (key x) (key y) ys (ground arith) s.0), s)
    | inr e ↦
        rw (e, IsSorted) (AllFrom-insert (key y) x ys (ground arith) s.0, insert-IsSorted x ys s.1)
  ]

  sort-IsSorted : (xs : List A) → IsSorted (sort key xs)
  unfolding sort
  sort-IsSorted [] = tt
  sort-IsSorted (x ∷ xs) = insert-IsSorted x (sort key xs) (sort-IsSorted xs)

  insert-perm : (x : A) (ys : List A) → Perm (insert key x ys) (x ∷ ys)
  unfolding insert
  insert-perm x [] = Perm.refl (x ∷ [])
  insert-perm x (y ∷ ys) = elim (Bool-cases (leb_ℤ (key x) (key y))) [
    | inl e ↦ rw e (Perm.refl (x ∷ y ∷ ys))
    | inr e ↦ rw e (Perm.trans (Perm.cons y (insert-perm x ys)) (Perm.swap x y ys))
  ]

  pub sort-perm : (xs : List A) → Perm (sort key xs) xs
  unfolding sort
  sort-perm [] = Perm.refl []
  sort-perm (x ∷ xs) = Perm.trans (insert-perm x (sort key xs)) (Perm.cons x (sort-perm xs))

  length-insert : (x : A) (ys : List A) → length (insert key x ys) ≡ suc (length ys)
  unfolding insert
  length-insert x [] = refl
  length-insert x (y ∷ ys) = ground (arith, length-insert x ys)

  length-sort : (xs : List A) → length (sort key xs) ≡ length xs
  unfolding sort
  length-sort [] = refl
  length-sort (x ∷ xs) = omega (arith, length-insert x (sort key xs), length-sort xs)

  length-drop-one : (xs : List A) → 0 < length xs → length (drop 1 xs) + 1 ≡ length xs
  length-drop-one [] h = absurd (omega arith)
  length-drop-one (x ∷ xs) h = omega arith

  pub stash-IsSorted : (xs : List A) (x : A) → IsSorted (stash key xs x)
  unfolding stash
  stash-IsSorted xs x = sort-IsSorted _

  pub length-stash :
      (xs : List A) (x : A)
      → length xs ≤ max_stashed_frames
      → length (stash key xs x) ≤ max_stashed_frames
  unfolding stash
  length-stash xs x h =
      let kept = if leb max_stashed_frames (length xs) then drop 1 xs else xs in
      let room : length kept < max_stashed_frames = ground (arith, length-drop-one xs) in
      omega (arith, length-sort (kept ++ (x ∷ [])), length-append kept (x ∷ []))

  -- With room to spare nothing is dropped.
  pub stash-perm :
      (xs : List A) (x : A) → length xs < max_stashed_frames → Perm (stash key xs x) (x ∷ xs)
  unfolding stash
  stash-perm xs x h =
      let b : leb max_stashed_frames (length xs) ≡ false = ground arith in
      rw b (
        Perm.trans (sort-perm (xs ++ (x ∷ []))) (rw (append-nil xs) at (perm_middle {a = x} xs [])))

  -- A stash, and a stash that is cleared, hold only what was put in.
  module _ {κ} (P : A → Type κ) where
    All-insert : (x : A) (ys : List A) → P x → All P ys → All P (insert key x ys)
    unfolding insert
    All-insert x [] p a = (p, tt)
    All-insert x (y ∷ ys) p a = elim (Bool-cases (leb_ℤ (key x) (key y))) [
      | inl e ↦ rw (e, All) (p, a)
      | inr e ↦ rw (e, All) (a.0, All-insert x ys p a.1)
    ]

    All-sort : (xs : List A) → All P xs → All P (sort key xs)
    unfolding sort
    All-sort [] a = tt
    All-sort (x ∷ xs) a = All-insert x (sort key xs) a.0 (All-sort xs a.1)

    All-trimmed : (xs : List A) → All P xs → All P (trimmed xs)
    All-trimmed xs a = by_test (leb max_stashed_frames (length xs))
      where
        by_test : (b : Bool) → All P (if b then drop 1 xs else xs)
        by_test true = All-drop-one P xs a
        by_test false = a

    pub All-stash : (xs : List A) (x : A) → All P xs → P x → All P (stash key xs x)
    unfolding stash
    All-stash xs x a p =
        All-sort (trimmed xs ++ (x ∷ []))
          (All-append P (trimmed xs) (x ∷ []) (All-trimmed xs a) (p, tt))

    pub All-clear_before : (bound : ℤ) (xs : List A) → All P xs → All P (clear_before key bound xs)
    unfolding clear_before
    All-clear_before bound [] a = tt
    All-clear_before bound (x ∷ xs) a = elim (Bool-cases (leb_ℤ bound (key x))) [
      | inl e ↦ rw (e, All) (a.0, All-clear_before bound xs a.1)
      | inr e ↦ rw (e, All) (All-clear_before bound xs a.1)
    ]

  pub length-clear_before :
      (bound : ℤ) (xs : List A) → length (clear_before key bound xs) ≤ length xs
  unfolding clear_before
  length-clear_before bound [] = omega arith
  length-clear_before bound (x ∷ xs) = ground (arith, length-clear_before bound xs)

  pub clear_before-IsSorted :
      (bound : ℤ) (xs : List A) → IsSorted xs → IsSorted (clear_before key bound xs)
  unfolding clear_before
  clear_before-IsSorted bound [] s = tt
  clear_before-IsSorted bound (x ∷ xs) s = elim (Bool-cases (leb_ℤ bound (key x))) [
    | inl e ↦
        rw (e, IsSorted)
          (All-clear_before (λ y. key x ≤ℤ key y) bound xs s.0, clear_before-IsSorted bound xs s.1)
    | inr e ↦ rw (e, IsSorted) (clear_before-IsSorted bound xs s.1)
  ]
