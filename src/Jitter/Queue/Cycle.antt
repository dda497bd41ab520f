-- ===== src/Jitter/Queue/Cycle.antt =====
-- A second packet with the number of the first one ties the list into a ring of two nodes.
use interceptor.Common.{
  ℕ, zero, suc, ◌<◌, ◌≡◌, ◌≢◌, refl, sym, ◌∙◌, ap, true, false, some, List, [], ◌∷◌, ◌++◌, leb, ltb,
  ◌==◌, arith, length, add16, length-append,
}
use interceptor.Jitter.Queue.Store.{
  node_at-old, node_at-new, next-set_next, next-set_next_other, next-set_prev, priority-set_next,
  priority-set_prev, length-set_next, length-set_prev,
}
use interceptor.Jitter.Queue.{
  PriorityQueue, Packet, Node, hangs, node_at, new_node, set_next, set_prev, link, find_from,
  search, push,
}

-- Two nodes that follow each other, neither of the number.
record Ring (s : List Node) (a b sq_num : ℕ) : Type 0 where
  a_next : (node_at s a).next ≡ some b
  b_next : (node_at s b).next ≡ some a
  a_other : (node_at s a).priority ≢ sq_num
  b_other : (node_at s b).priority ≢ sq_num

find_from-Ring :
    (k : ℕ) (s : List Node) (a b sq_num : ℕ)
    → Ring s a b sq_num
    → find_from k s (some a) sq_num ≡ hangs
unfolding find_from
find_from-Ring zero s a b sq_num r = refl
find_from-Ring (suc k) s a b sq_num r =
    let t : ((node_at s a).priority == sq_num) ≡ false = ground (arith, r.a_other) in
    rw (t, r.a_next)
      (find_from-Ring k s b a sq_num
        (record { a_next = r.b_next; b_next = r.a_next; a_other = r.b_other; b_other = r.a_other }))

-- the store after a new node has been linked between a node and itself
link-Ring :
    (s : List Node) (n i sq_num : ℕ)
    → i < length s
    → n < length s
    → n ≢ i
    → (node_at s n).priority ≢ sq_num
    → (node_at s i).priority ≢ sq_num
    → Ring (link s n (some i) (some i)) i n sq_num
link-Ring s n i sq_num h k d p q =
    let s1 = set_next s (some n) (some i) in
    let s2 = set_prev s1 (some n) (some i) in
    let s3 = set_next s2 (some i) (some n) in
    let l2 : i < length s2 =
      rw (length-set_prev s1 (some n) (some i), length-set_next s (some n) (some i)) h in
    let pri = λ (j : ℕ).
      priority-set_prev s3 (some i) (some n) j
      ∙ priority-set_next s2 (some i) (some n) j
      ∙ priority-set_prev s1 (some n) (some i) j
      ∙ priority-set_next s (some n) (some i) j in
    record {
      a_next = next-set_prev s3 (some i) (some n) i ∙ next-set_next s2 i (some n) l2;
      b_next =
          next-set_prev s3 (some i) (some n) n
          ∙ next-set_next_other s2 i n (some n) (λ e. d (sym e))
          ∙ next-set_prev s1 (some n) (some i) n
          ∙ next-set_next s n (some i) k;
      a_other = λ e. q (sym (pri i) ∙ e);
      b_other = λ e. p (sym (pri n) ∙ e);
    }

-- `Push` of a packet whose number is that of the first packet of the queue returns, and afterwards
-- `Find` of any other number never does, whatever was in the queue: the new node and the first one
-- each come right after the other.
pub push-find_hangs :
    (q : PriorityQueue) (i : ℕ) (val : Packet) (sq_num : ℕ)
    → q.next ≡ some i
    → i < length q.nodes
    → sq_num ≢ (node_at q.nodes i).priority
    → (q' : PriorityQueue) × (push q val (node_at q.nodes i).priority ≡ some q')
      × ((k : ℕ) → find_from k q'.nodes q'.next sq_num ≡ hangs)
unfolding push search
push-find_hangs q i val sq_num e h n =
    let pr = (node_at q.nodes i).priority in
    let s = q.nodes ++ (new_node val pr ∷ []) in
    let new = length q.nodes in
    let l : length s ≡ suc new = omega (arith, length-append q.nodes (new_node val pr ∷ [])) in
    let old : (node_at s i).priority ≡ pr =
      ap (λ m. m.priority) (node_at-old q.nodes (new_node val pr) i h) in
    let fresh : (node_at s new).priority ≡ pr =
      ap (λ m. m.priority) (node_at-new q.nodes (new_node val pr)) in
    let not_less : ltb pr (node_at s i).priority ≡ false = ground (arith, old) in
    let stops : leb pr (node_at s i).priority ≡ true = ground (arith, old) in
    (
      record { nodes = link s new (some i) (some i); next = some i; length = add16 q.length 1 },
      rw (e, push, not_less, l, stops) refl,
      λ k. find_from-Ring k _ i new sq_num (
          link-Ring s new i sq_num (omega (arith, l)) (omega (arith, l))
            (λ d. absurd (omega (arith, d))) (λ d. n (sym d ∙ fresh)) (λ d. n (sym d ∙ old))),
    )
