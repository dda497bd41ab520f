-- ===== src/Twcc/Chunk/Wire.antt =====
-- What a status chunk means on the wire: the draft's symbols, with which a vector is filled up.
use mathlib.Core.List.{append_assoc}
use interceptor.Common.{
  ℕ, zero, suc, ◌+◌, ◌≤◌, ◌<◌, ◌≡◌, refl, sym, ap, ap₂, inl, inr, true, false, ◌||◌, not, List, [],
  ◌∷◌, ◌++◌, arith, length, take, drop, replicate, Bool-cases,
}
use interceptor.Twcc.Chunk.{
  Symbol, not_received, is_large, same, StatusChunk, run_length, one_bit, two_bit, any_other,
  any_large,
}

-- A vector has room for `n` symbols, and those that are not given are 0.
pub pad : ℕ → List Symbol → List Symbol
pad zero ds = []
pad (suc n) [] = not_received ∷ pad n []
pad (suc n) (d ∷ ds) = d ∷ pad n ds

-- the statuses that a receiver of the chunk reads
abbrev pub read : StatusChunk → List Symbol
read (run_length s n) = replicate n s
read (one_bit ds) = pad 14 ds
read (two_bit ds) = pad 7 ds

abbrev pub read_all : List StatusChunk → List Symbol
read_all [] = []
read_all (s ∷ ss) = read s ++ read_all ss

-- The chunk can be written down: 13 bits of run length; 14 symbols of one bit, none of them a large
-- delta; at most 7 symbols of two bits.
abbrev pub Fits : StatusChunk → Type 0
Fits (run_length s n) = n < 8192
Fits (one_bit ds) = (length ds ≡ 14) × (any_large ds ≡ false)
Fits (two_bit ds) = length ds ≤ 7

pub pad-short :
    (n m : ℕ) (ds : List Symbol) → length ds + m ≡ n → pad n ds ≡ ds ++ replicate m not_received
unfolding pad
pad-short zero zero [] h = refl
pad-short zero (suc m) [] h = absurd (omega arith)
pad-short zero m (d ∷ ds) h = absurd (omega arith)
pad-short (suc n) zero [] h = absurd (omega arith)
pad-short (suc n) (suc m) [] h =
    ap (λ (t : List Symbol). not_received ∷ t) (pad-short n m [] (omega arith))
pad-short (suc n) m (d ∷ ds) h = ap (λ (t : List Symbol). d ∷ t) (pad-short n m ds (omega arith))

pub pad-full : (n : ℕ) (ds : List Symbol) → length ds ≡ n → pad n ds ≡ ds
unfolding pad
pad-full zero [] h = refl
pad-full zero (d ∷ ds) h = absurd (omega arith)
pad-full (suc n) [] h = absurd (omega arith)
pad-full (suc n) (d ∷ ds) h = ap (λ (t : List Symbol). d ∷ t) (pad-full n ds (omega arith))

pub append-read_all : (ss ts : List StatusChunk) → read_all (ss ++ ts) ≡ read_all ss ++ read_all ts
append-read_all [] ts = refl
append-read_all (s ∷ ss) ts =
    rw (append-read_all ss ts) (sym (append_assoc (read s) (read_all ss) (read_all ts)))

pub same-eq : (s t : Symbol) → same s t ≡ true → s ≡ t
same-eq s t h = ground arith

pub same_comm : (s t : Symbol) → same s t ≡ same t s
same_comm s t = ground arith

-- A run: no status differs from `s`.
pub any_other-replicate :
    (s : Symbol) (ds : List Symbol) → any_other s ds ≡ false → replicate (length ds) s ≡ ds
any_other-replicate s [] h = refl
any_other-replicate s (d ∷ ds) h = elim (Bool-cases (same s d)) [
  | inl e ↦
      let t : any_other s ds ≡ false = ground arith in
      ap₂ (λ (x : Symbol) (xs : List Symbol). x ∷ xs) (same-eq s d e) (any_other-replicate s ds t)
  | inr e ↦ absurd (ground arith)
]

pub any_other-append :
    (s d : Symbol) (ds : List Symbol)
    → any_other s (ds ++ (d ∷ [])) ≡ (any_other s ds || not (same s d))
any_other-append s d [] = ground arith
any_other-append s d (x ∷ ds) = ground (arith, any_other-append s d ds)

pub any_large-append :
    (d : Symbol) (ds : List Symbol) → any_large (ds ++ (d ∷ [])) ≡ (any_large ds || is_large d)
any_large-append d [] = ground arith
any_large-append d (x ∷ ds) = ground (arith, any_large-append d ds)

pub take-drop : (n : ℕ) (ds : List Symbol) → take n ds ++ drop n ds ≡ ds
take-drop zero ds = refl
take-drop (suc n) [] = refl
take-drop (suc n) (d ∷ ds) = ap (λ (t : List Symbol). d ∷ t) (take-drop n ds)
