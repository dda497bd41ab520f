-- ===== src/Jitter/Queue/Chain.antt =====
-- The list that a queue stands for, and `Find` on it.
use interceptor.Common.{
  ℕ, zero, suc, ◌<◌, ◌≤◌, ◌≡◌, ◌≢◌, refl, sym, ◌∙◌, Option, none, some, List, [], ◌∷◌, ◌==◌, arith,
  if◌then◌else◌, length, All, subst,
}
use interceptor.Jitter.Queue.{
  Packet, Node, PriorityQueue, Result, ok, failed, not_found, node_at, find_from, find,
}

-- a packet, its number, and the node that holds it
pub record Entry : Type 0 where
  pub at : ℕ
  pub packet : Packet
  pub priority : ℕ

-- The node holds the entry.
pub record Holds (n : Node) (x : Entry) : Type 0 where
  pub val : n.val ≡ some x.packet
  pub priority : n.priority ≡ x.priority

-- The pointer leads to the nodes of the entries, one after the other, and no node comes twice.
abbrev pub Chain : List Node → Option ℕ → List Entry → Type 0
Chain s p [] = p ≡ none
Chain s p (x ∷ xs) =
    (p ≡ some x.at)
    × (x.at < length s)
    × Holds (node_at s x.at) x
    × All (λ y. y.at ≢ x.at) xs
    × Chain s (node_at s x.at).next xs

-- The node is the same in both stores, but for its back pointer.
pub record Same (s s' : List Node) (j : ℕ) : Type 0 where
  pub next : (node_at s' j).next ≡ (node_at s j).next
  pub val : (node_at s' j).val ≡ (node_at s j).val
  pub priority : (node_at s' j).priority ≡ (node_at s j).priority

pub Holds-Same :
    (s s' : List Node) (x : Entry)
    → Same s s' x.at
    → Holds (node_at s x.at) x
    → Holds (node_at s' x.at) x
Holds-Same s s' x m h = record { val = m.val ∙ h.val; priority = m.priority ∙ h.priority }

pub Chain-Same :
    (s s' : List Node) (p : Option ℕ) (xs : List Entry)
    → length s ≤ length s'
    → All (λ x. Same s s' x.at) xs
    → Chain s p xs
    → Chain s' p xs
Chain-Same s s' p [] l a c = c
Chain-Same s s' p (x ∷ xs) l (m, a) (e, b, h, d, c) = (
  e,
  omega arith,
  Holds-Same s s' x m h,
  d,
  subst (λ q. Chain s' q xs) (sym m.next) (Chain-Same s s' _ xs l a c),
)

-- What `Find` promises on a list of entries.
unfoldable pub lookup : ℕ → List Entry → Result (Option Packet)
lookup sq_num [] = failed not_found
lookup sq_num (x ∷ xs) =
    let rest = lookup sq_num xs in if x.priority == sq_num then ok (some x.packet) else rest

find_from-lookup :
    (k : ℕ) (s : List Node) (p : Option ℕ) (sq_num : ℕ) (xs : List Entry)
    → length xs ≤ k
    → Chain s p xs
    → find_from k s p sq_num ≡ lookup sq_num xs
unfolding find_from lookup
find_from-lookup k s p sq_num [] l c = rw c refl
find_from-lookup zero s p sq_num (x ∷ xs) l c = absurd (omega arith)
find_from-lookup (suc k) s p sq_num (x ∷ xs) l (e, b, h, d, c) =
    rw (e, h.priority, h.val, find_from-lookup k s (node_at s x.at).next sq_num xs (omega arith) c)
      refl

-- The queue stands for the entries.
pub record IsQueue (q : PriorityQueue) (xs : List Entry) : Type 0 where
  pub chain : Chain q.nodes q.next xs
  pub few : length xs ≤ length q.nodes

-- `Find` on a queue that stands for a list returns, and returns what the list holds for the number:
-- the first packet with it, or the error that there is none.
pub find-lookup :
    (q : PriorityQueue) (xs : List Entry) (sq_num : ℕ)
    → IsQueue q xs
    → find q sq_num ≡ lookup sq_num xs
unfolding find
find-lookup q xs sq_num v = find_from-lookup (length q.nodes) q.nodes q.next sq_num xs v.few v.chain
