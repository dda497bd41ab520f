-- ===== src/Jitter/Queue/Entries.antt =====
-- Insertion into and removal from the list that a queue stands for.
use mathlib.Core.List.{Perm}
use mathlib.Core.List.Perm
use interceptor.Common.{
  ℕ, suc, ◌≤◌, ◌≡◌, refl, inl, inr, Option, List, [], ◌∷◌, leb, ◌==◌, arith, if◌then◌else◌, length,
  Bool-cases, All,
}
use interceptor.Jitter.Queue.{Packet, Result, failed, invalid_operation}
use interceptor.Jitter.Queue.Chain.{Entry, lookup}

-- Before the first entry of at least its number.
unfoldable pub insert : Entry → List Entry → List Entry
insert x [] = x ∷ []
insert x (y ∷ ys) =
    let rest = insert x ys in if leb x.priority y.priority then x ∷ y ∷ ys else y ∷ rest

pub All-insert :
    (P : Entry → Type 0) (x : Entry) (ys : List Entry) → P x → All P ys → All P (insert x ys)
unfolding insert
All-insert P x [] p a = (p, tt)
All-insert P x (y ∷ ys) p a = elim (Bool-cases (leb x.priority y.priority)) [
  | inl e ↦ rw (e, All) (p, a)
  | inr e ↦ rw (e, All) (a.0, All-insert P x ys p a.1)
]

pub length-insert : (x : Entry) (ys : List Entry) → length (insert x ys) ≡ suc (length ys)
unfolding insert
length-insert x [] = refl
length-insert x (y ∷ ys) = ground (arith, length-insert x ys)

-- Without the first entry of the number.
unfoldable pub remove : ℕ → List Entry → List Entry
remove sq_num [] = []
remove sq_num (x ∷ xs) =
    let rest = remove sq_num xs in if x.priority == sq_num then xs else x ∷ rest

unfoldable pub pop_result : ℕ → List Entry → Result (Option Packet)
pop_result sq_num [] = failed invalid_operation
pop_result sq_num (x ∷ xs) = lookup sq_num (x ∷ xs)

pub All-remove :
    (P : Entry → Type 0) (sq_num : ℕ) (xs : List Entry) → All P xs → All P (remove sq_num xs)
unfolding remove
All-remove P sq_num [] a = tt
All-remove P sq_num (x ∷ xs) a = elim (Bool-cases (x.priority == sq_num)) [
  | inl e ↦ rw (e, All) a.1
  | inr e ↦ rw (e, All) (a.0, All-remove P sq_num xs a.1)
]

pub length-remove : (sq_num : ℕ) (xs : List Entry) → length (remove sq_num xs) ≤ length xs
unfolding remove
length-remove sq_num [] = omega arith
length-remove sq_num (x ∷ xs) = ground (arith, length-remove sq_num xs)

-- Ascending numbers.
abbrev pub IsSorted : List Entry → Type 0
IsSorted [] = Unit
IsSorted (x ∷ xs) = All (λ y. x.priority ≤ y.priority) xs × IsSorted xs

All-mono :
    (a b : ℕ) (xs : List Entry)
    → a ≤ b
    → All (λ y. b ≤ y.priority) xs
    → All (λ y. a ≤ y.priority) xs
All-mono a b [] h p = tt
All-mono a b (x ∷ xs) h p = (omega (arith, p.0), All-mono a b xs h p.1)

pub insert-IsSorted : (x : Entry) (ys : List Entry) → IsSorted ys → IsSorted (insert x ys)
unfolding insert
insert-IsSorted x [] s = (tt, tt)
insert-IsSorted x (y ∷ ys) s = elim (Bool-cases (leb x.priority y.priority)) [
  | inl e ↦
      let h : x.priority ≤ y.priority = ground arith in
      rw (e, IsSorted) ((h, All-mono x.priority y.priority ys h s.0), s)
  | inr e ↦
      let h : y.priority ≤ x.priority = ground arith in
      rw (e, IsSorted)
        (All-insert (λ z. y.priority ≤ z.priority) x ys h s.0, insert-IsSorted x ys s.1)
]

pub insert-perm : (x : Entry) (ys : List Entry) → Perm (insert x ys) (x ∷ ys)
unfolding insert
insert-perm x [] = Perm.refl (x ∷ [])
insert-perm x (y ∷ ys) = elim (Bool-cases (leb x.priority y.priority)) [
  | inl e ↦ rw e (Perm.refl (x ∷ y ∷ ys))
  | inr e ↦ rw e (Perm.trans (Perm.cons y (insert-perm x ys)) (Perm.swap x y ys))
]
