-- ===== src/Jitter/Queue/Cleared.antt =====
-- `Clear` sets the length to 0 and leaves the packets in the queue.
use interceptor.Common.{
  ℕ, zero, suc, ◌≤◌, ◌≡◌, refl, sym, ◌∙◌, Option, none, some, List, [], ◌∷◌, arith, length, All,
}
use interceptor.Jitter.Queue.{Node, PriorityQueue, node_at, set_prev, clear_from, clear, find}
use interceptor.Jitter.Queue.Store.{next-set_prev, val-set_prev, priority-set_prev, length-set_prev}
use interceptor.Jitter.Queue.Chain.{Entry, Chain, Same, Chain-Same, IsQueue, find-lookup}

-- The two stores differ in back pointers only.
record Alike (s s' : List Node) : Type 0 where
  same : (j : ℕ) → Same s s' j
  long : length s' ≡ length s

All-Same : (s s' : List Node) (xs : List Entry) → Alike s s' → All (λ x. Same s s' x.at) xs
All-Same s s' [] a = tt
All-Same s s' (x ∷ xs) a = (a.same x.at, All-Same s s' xs a)

Alike-Chain :
    (s s' : List Node) (p : Option ℕ) (xs : List Entry) → Alike s s' → Chain s p xs → Chain s' p xs
Alike-Chain s s' p xs a c = Chain-Same s s' p xs (omega (arith, a.long)) (All-Same s s' xs a) c

set_prev-Alike : (s : List Node) (q p : Option ℕ) → Alike s (set_prev s q p)
set_prev-Alike s q p = record {
  same = λ j. record {
    next = next-set_prev s q p j;
    val = val-set_prev s q p j;
    priority = priority-set_prev s q p j;
  };
  long = length-set_prev s q p;
}

Alike-trans : (s t u : List Node) → Alike s t → Alike t u → Alike s u
Alike-trans s t u a b = record {
  same = λ j. record {
    next = (b.same j).next ∙ (a.same j).next;
    val = (b.same j).val ∙ (a.same j).val;
    priority = (b.same j).priority ∙ (a.same j).priority;
  };
  long = b.long ∙ a.long;
}

clear_from-Alike :
    (k : ℕ) (s : List Node) (p : Option ℕ) (xs : List Entry)
    → length xs ≤ k
    → Chain s p xs
    → (s' : List Node) × (clear_from k s p ≡ some s') × Alike s s'
unfolding clear_from
clear_from-Alike k s p [] l c = (
  s,
  rw c refl,
  record { same = λ j. record { next = refl; val = refl; priority = refl }; long = refl },
)
clear_from-Alike zero s p (x ∷ xs) l c = absurd (omega arith)
clear_from-Alike (suc k) s p (x ∷ xs) l (e, b, h, d, c) =
    let s1 = set_prev s (some x.at) none in
    let a = set_prev-Alike s (some x.at) none in
    let (s', done, a') =
      clear_from-Alike k s1 (node_at s x.at).next xs (omega arith) (Alike-Chain s s1 _ xs a c) in
    (s', rw e done, Alike-trans s s1 s' a a')

-- `Clear` on a queue that stands for a list returns with the length 0, but the queue still stands for
-- the same list: `Find` still finds each packet that was in it.
pub clear-find :
    (q : PriorityQueue) (xs : List Entry)
    → IsQueue q xs
    → (q' : PriorityQueue) × (clear q ≡ some q')
      × (q'.length ≡ 0)
      × IsQueue q' xs
      × ((sq_num : ℕ) → find q' sq_num ≡ find q sq_num)
unfolding clear
clear-find q xs v =
    let (s', done, a) = clear_from-Alike (length q.nodes) q.nodes q.next xs v.few v.chain in
    let q' : PriorityQueue = record { nodes = s'; next = q.next; length = 0 } in
    let v' : IsQueue q' xs = record {
      chain = Alike-Chain q.nodes s' q.next xs a v.chain;
      few = omega (arith, v.few, a.long);
    } in
    (q', rw (clear, done) refl, refl, v', λ n. find-lookup q' xs n v' ∙ sym (find-lookup q xs n v))
