-- ===== src/Video/Stash.antt =====
-- The stash that the reference finders keep: at most 100 entries, sorted by a number of the entry.
-- `sort.Slice` is modelled as insertion sort (the order of equal keys is not specified by Go).
pub mod Laws
use interceptor.Common.{ℕ, List, [], ◌∷◌, ◌++◌, leb, if◌then◌else◌, length, drop}
use interceptor.Common.Int.{ℤ, leb_ℤ}

-- maxStashedFrames
abbrev pub max_stashed_frames : ℕ
max_stashed_frames = 100

-- `if len(f.stashedFrames) >= maxStashedFrames { f.stashedFrames = f.stashedFrames[1:] }`
abbrev pub trimmed {ℓ} : {A : Type ℓ} → List A → List A
trimmed xs = if leb max_stashed_frames (length xs) then drop 1 xs else xs

module _ {ℓ} {A : Type ℓ} (key : A → ℤ) where
  unfoldable pub insert : A → List A → List A
  insert x [] = x ∷ []
  insert x (y ∷ ys) =
      let rest = insert x ys in if leb_ℤ (key x) (key y) then x ∷ y ∷ ys else y ∷ rest

  unfoldable pub sort : List A → List A
  sort [] = []
  sort (x ∷ xs) = insert x (sort xs)

  -- `stashFrame`: drop the oldest when full, append, sort
  unfoldable pub stash : List A → A → List A
  stash xs x = sort (trimmed xs ++ (x ∷ []))

  -- `clearStashedFramesBefore` and `ClearTo`: the entries from `bound` on
  unfoldable pub clear_before : ℤ → List A → List A
  clear_before bound [] = []
  clear_before bound (x ∷ xs) =
      let rest = clear_before bound xs in if leb_ℤ bound (key x) then x ∷ rest else rest
