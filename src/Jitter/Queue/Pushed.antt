-- ===== src/Jitter/Queue/Pushed.antt =====
-- `Push` as a whole.
use interceptor.Common.{
  ℕ, suc, ◌≡◌, ◌≢◌, refl, sym, ap, ◌∙◌, inl, inr, true, false, Option, none, some, List, [], ◌∷◌,
  ◌++◌, leb, ltb, arith, length, Bool-cases, All, subst, length-append, add16,
}
use interceptor.Jitter.Queue.{
  Packet, Node, PriorityQueue, node_at, new_node, set_next, set_prev, link, search, push,
}
use interceptor.Jitter.Queue.Store.{
  node_at-old, node_at-new, next-set_next, next-set_next_other, next-set_prev, priority-set_next,
  priority-set_prev, val-set_next, val-set_prev, length-set_next, length-set_prev,
}
use interceptor.Jitter.Queue.Chain.{Entry, Holds, Chain, Same, Chain-Same, IsQueue}
use interceptor.Jitter.Queue.Insertion.{search-Inserted}
use interceptor.Jitter.Queue.Entries.{insert, length-insert}

-- The first packet of the queue has another number.
abbrev pub HeadDiffers : ℕ → List Entry → Type 0
HeadDiffers priority [] = Unit
HeadDiffers priority (x ∷ xs) = x.priority ≢ priority

All-old :
    (s : List Node) (p : Option ℕ) (xs : List Entry) → Chain s p xs → All (λ x. x.at ≢ length s) xs
All-old s p [] c = tt
All-old s p (x ∷ xs) (e, b, h, d, c) =
    (λ i. absurd (omega (arith, i)), All-old s (node_at s x.at).next xs c)

module _ (q : PriorityQueue) (val : Packet) (priority : ℕ) where
  abbrev store : List Node
  store = q.nodes ++ (new_node val priority ∷ [])

  -- the entry of the new packet
  abbrev pub pushed : Entry
  pushed = record { at = length q.nodes; packet = val; priority = priority }

  length-store : length store ≡ suc (length q.nodes)
  length-store = omega (arith, length-append q.nodes (new_node val priority ∷ []))

  old-Same :
      (p : Option ℕ) (xs : List Entry) → Chain q.nodes p xs → All (λ x. Same q.nodes store x.at) xs
  old-Same p [] c = tt
  old-Same p (x ∷ xs) (e, b, h, d, c) =
      let n = node_at-old q.nodes (new_node val priority) x.at b in
      (
        record {
          next = ap (λ m. m.next) n;
          val = ap (λ m. m.val) n;
          priority = ap (λ m. m.priority) n;
        },
        old-Same (node_at q.nodes x.at).next xs c,
      )

  old-Chain : (p : Option ℕ) (xs : List Entry) → Chain q.nodes p xs → Chain store p xs
  old-Chain p xs c = Chain-Same q.nodes store p xs (omega (arith, length-store)) (old-Same p xs c) c

  new_Holds : Holds (node_at store (length q.nodes)) pushed
  new_Holds =
      rw (node_at-new q.nodes (new_node val priority)) (record { val = refl; priority = refl })

  new_last : (node_at store (length q.nodes)).next ≡ none
  new_last = ap (λ m. m.next) (node_at-new q.nodes (new_node val priority))

  -- the new node linked in before all others
  abbrev front : ℕ → List Node
  front i =
      set_prev (set_next store (some (length q.nodes)) (some i)) (some i) (some (length q.nodes))

  front-Same : (i j : ℕ) → j ≢ length q.nodes → Same store (front i) j
  front-Same i j d =
      let n = length q.nodes in
      let s1 = set_next store (some n) (some i) in
      record {
        next =
            next-set_prev s1 (some i) (some n) j
            ∙ next-set_next_other store n j (some i) (λ e. d (sym e));
        val = val-set_prev s1 (some i) (some n) j ∙ val-set_next store (some n) (some i) j;
        priority =
            priority-set_prev s1 (some i) (some n) j ∙ priority-set_next store (some n) (some i) j;
      }

  All-front :
      (i : ℕ) (xs : List Entry)
      → All (λ x. x.at ≢ length q.nodes) xs
      → All (λ x. Same store (front i) x.at) xs
  All-front i [] a = tt
  All-front i (x ∷ xs) a = (front-Same i x.at a.0, All-front i xs a.1)

  length-front : (i : ℕ) → length (front i) ≡ length store
  length-front i =
      let n = length q.nodes in
      length-set_prev (set_next store (some n) (some i)) (some i) (some n)
      ∙ length-set_next store (some n) (some i)

  front-Chain :
      (x : Entry) (xs : List Entry)
      → Chain q.nodes (some x.at) (x ∷ xs)
      → Chain (front x.at) (some (length q.nodes)) (pushed ∷ x ∷ xs)
  front-Chain x xs c =
      let n = length q.nodes in
      let s1 = set_next store (some n) (some x.at) in
      let old = All-old q.nodes (some x.at) (x ∷ xs) c in
      let rest =
        Chain-Same store (front x.at) (some x.at) (x ∷ xs) (omega (arith, length-front x.at))
          (All-front x.at (x ∷ xs) old) (old-Chain (some x.at) (x ∷ xs) c) in
      let leads : (node_at (front x.at) n).next ≡ some x.at =
        next-set_prev s1 (some x.at) (some n) n
        ∙ next-set_next store n (some x.at) (omega (arith, length-store)) in
      (
        refl,
        omega (arith, length-front x.at, length-store),
        record {
          val =
              val-set_prev s1 (some x.at) (some n) n
              ∙ val-set_next store (some n) (some x.at) n
              ∙ new_Holds.val;
          priority =
              priority-set_prev s1 (some x.at) (some n) n
              ∙ priority-set_next store (some n) (some x.at) n
              ∙ new_Holds.priority;
        },
        old,
        subst (λ p. Chain (front x.at) p (x ∷ xs)) (sym leads) rest,
      )

  push-after :
      (x : Entry) (head prev : Option ℕ)
      → q.next ≡ some x.at
      → (node_at store x.at).priority ≡ x.priority
      → ltb priority x.priority ≡ false
      → leb priority x.priority ≡ false
      → search (length q.nodes) store priority (node_at store x.at).next (some x.at)
        ≡ some (head, prev)
      → push q val priority
        ≡ some (record {
          nodes = link store (length q.nodes) head prev;
          next = some x.at;
          length = add16 q.length 1;
        })
  unfolding push search
  push-after x head prev e h t u found = rw (e, push, h, t, length-store, h, u, found) refl

  -- `Push` on a queue that stands for a list returns, if the first packet has another number; the
  -- queue then stands for the list with the packet before the first one of at least its number, and
  -- its length has grown by one.
  pub push-insert :
      (xs : List Entry)
      → IsQueue q xs
      → HeadDiffers priority xs
      → (q' : PriorityQueue) × (push q val priority ≡ some q')
        × IsQueue q' (insert pushed xs)
        × (q'.length ≡ add16 q.length 1)
  unfolding push insert
  push-insert [] v d = (
    record { nodes = store; next = some (length q.nodes); length = add16 q.length 1 },
    rw (v.chain, push) refl,
    record {
      chain = (refl, omega (arith, length-store), new_Holds, tt, new_last);
      few = omega (arith, length-store);
    },
    refl,
  )
  push-insert (x ∷ xs) v d =
      let c = old-Chain q.next (x ∷ xs) v.chain in
      elim (Bool-cases (ltb priority x.priority)) [
        | inl t ↦
            let first : leb priority x.priority ≡ true = ground arith in
            (
              record {
                nodes = front x.at;
                next = some (length q.nodes);
                length = add16 q.length 1;
              },
              rw (v.chain.0, push, c.2.priority, t) refl,
              record {
                chain =
                    rw (first, Chain)
                      (front-Chain x xs (refl, v.chain.1, v.chain.2, v.chain.3, v.chain.4));
                few = rw first (omega (arith, v.few, length-front x.at, length-store));
              },
              refl,
            )
        | inr t ↦
            let after : leb priority x.priority ≡ false = ground arith in
            let (head, prev, found, ih) =
              search-Inserted store pushed (omega (arith, length-store)) new_Holds new_last
                (length q.nodes) x xs (omega (arith, v.few)) (refl, c.1, c.2, c.3, c.4)
                (All-old q.nodes q.next (x ∷ xs) v.chain) in
            (
              record {
                nodes = link store (length q.nodes) head prev;
                next = some x.at;
                length = add16 q.length 1;
              },
              push-after x head prev v.chain.0 c.2.priority t after found,
              record {
                chain = rw (after, Chain) ih.chain;
                few =
                    rw after (omega (arith, v.few, ih.long, length-store, length-insert pushed xs));
              },
              refl,
            )
      ]
