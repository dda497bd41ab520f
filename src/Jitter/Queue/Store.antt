-- ===== src/Jitter/Queue/Store.antt =====
-- Reads after writes in the store of nodes.
use interceptor.Common.{
  ℕ, zero, suc, ◌<◌, ◌≡◌, ◌≢◌, refl, ap, Option, none, some, List, [], ◌∷◌, ◌++◌, arith, length,
  get_or, length-set, get_or-set_self, get_or-set_kept, get_or-set_ne,
}
use interceptor.Jitter.Queue.{Node, node_at, set_next, set_prev, clear_val}

module _ {ℓ} {A : Type ℓ} where
  get_or-append_left :
      (xs ys : List A) (i : ℕ) (d : A) → i < length xs → get_or (xs ++ ys) i d ≡ get_or xs i d
  get_or-append_left [] ys i d h = absurd (omega arith)
  get_or-append_left (x ∷ xs) ys zero d h = refl
  get_or-append_left (x ∷ xs) ys (suc i) d h = get_or-append_left xs ys i d (omega arith)

  get_or-append_at : (xs : List A) (y d : A) → get_or (xs ++ (y ∷ [])) (length xs) d ≡ y
  get_or-append_at [] y d = refl
  get_or-append_at (x ∷ xs) y d = get_or-append_at xs y d

pub node_at-old :
    (s : List Node) (n : Node) (i : ℕ) → i < length s → node_at (s ++ (n ∷ [])) i ≡ node_at s i
node_at-old s n i h = get_or-append_left s (n ∷ []) i _ h

pub node_at-new : (s : List Node) (n : Node) → node_at (s ++ (n ∷ [])) (length s) ≡ n
node_at-new s n = get_or-append_at s n _

pub next-set_next :
    (s : List Node) (i : ℕ) (p : Option ℕ)
    → i < length s
    → (node_at (set_next s (some i) p) i).next ≡ p
next-set_next s i p h = ap (λ n. n.next) (get_or-set_self s i _ _ h)

pub next-set_next_other :
    (s : List Node) (i j : ℕ) (p : Option ℕ)
    → i ≢ j
    → (node_at (set_next s (some i) p) j).next ≡ (node_at s j).next
next-set_next_other s i j p h = ap (λ n. n.next) (get_or-set_ne s i j _ _ h)

pub priority-set_next :
    (s : List Node) (q p : Option ℕ) (j : ℕ)
    → (node_at (set_next s q p) j).priority ≡ (node_at s j).priority
priority-set_next s none p j = refl
priority-set_next s (some i) p j = get_or-set_kept (λ n. n.priority) s i j _ _ refl

pub val-set_next :
    (s : List Node) (q p : Option ℕ) (j : ℕ) → (node_at (set_next s q p) j).val ≡ (node_at s j).val
val-set_next s none p j = refl
val-set_next s (some i) p j = get_or-set_kept (λ n. n.val) s i j _ _ refl

pub next-set_prev :
    (s : List Node) (q p : Option ℕ) (j : ℕ)
    → (node_at (set_prev s q p) j).next ≡ (node_at s j).next
next-set_prev s none p j = refl
next-set_prev s (some i) p j = get_or-set_kept (λ n. n.next) s i j _ _ refl

pub priority-set_prev :
    (s : List Node) (q p : Option ℕ) (j : ℕ)
    → (node_at (set_prev s q p) j).priority ≡ (node_at s j).priority
priority-set_prev s none p j = refl
priority-set_prev s (some i) p j = get_or-set_kept (λ n. n.priority) s i j _ _ refl

pub val-set_prev :
    (s : List Node) (q p : Option ℕ) (j : ℕ) → (node_at (set_prev s q p) j).val ≡ (node_at s j).val
val-set_prev s none p j = refl
val-set_prev s (some i) p j = get_or-set_kept (λ n. n.val) s i j _ _ refl

pub length-set_next : (s : List Node) (q p : Option ℕ) → length (set_next s q p) ≡ length s
length-set_next s none p = refl
length-set_next s (some i) p = length-set s i _

pub length-set_prev : (s : List Node) (q p : Option ℕ) → length (set_prev s q p) ≡ length s
length-set_prev s none p = refl
length-set_prev s (some i) p = length-set s i _

pub next-clear_val :
    (s : List Node) (i j : ℕ) → (node_at (clear_val s i) j).next ≡ (node_at s j).next
next-clear_val s i j = get_or-set_kept (λ n. n.next) s i j _ _ refl

pub priority-clear_val :
    (s : List Node) (i j : ℕ) → (node_at (clear_val s i) j).priority ≡ (node_at s j).priority
priority-clear_val s i j = get_or-set_kept (λ n. n.priority) s i j _ _ refl

pub val-clear_val_other :
    (s : List Node) (i j : ℕ) → i ≢ j → (node_at (clear_val s i) j).val ≡ (node_at s j).val
val-clear_val_other s i j h = ap (λ n. n.val) (get_or-set_ne s i j _ _ h)

pub length-clear_val : (s : List Node) (i : ℕ) → length (clear_val s i) ≡ length s
length-clear_val s i = length-set s i _
