-- ===== src/Jitter/Queue/Removal.antt =====
-- `PopAt` takes out the first packet with a number.
use interceptor.Common.{
  ℕ, zero, suc, ◌<◌, ◌≤◌, ◌≡◌, ◌≢◌, refl, sym, ap, ◌∙◌, inl, inr, Bool, true, false, Option, some,
  List, [], ◌∷◌, ◌==◌, arith, length, Bool-cases, All, subst, sub16,
}
use interceptor.Jitter.Queue.{
  Packet, Node, PriorityQueue, Result, ok, node_at, clear_val, unlink, take_from, take_matching,
  pop_at,
}
use interceptor.Jitter.Queue.Store.{
  next-clear_val, priority-clear_val, val-clear_val_other, length-clear_val,
}
use interceptor.Jitter.Queue.Entries.{remove, pop_result, All-remove, length-remove}
use interceptor.Jitter.Queue.Unlinked.{unlink-Unlinked, All-Same}
use interceptor.Jitter.Queue.Chain.{
  Entry, Holds, Chain, Same, Holds-Same, Chain-Same, lookup, IsQueue,
}

predecessor : (n : ℕ) → 0 < n → (k : ℕ) × (n ≡ suc k)
predecessor zero h = absurd (omega arith)
predecessor (suc k) h = (k, refl)

module _ (q : PriorityQueue) (sq_num : ℕ) where
  abbrev matches : Node → Bool
  matches n = n.priority == sq_num

  -- What the loop returns and leaves, behind the entry `y`.
  record Removed (y : Entry) (xs : List Entry) (r : Result (Option Packet) × PriorityQueue)
      : Type 0 where
    result : r.0 ≡ lookup sq_num xs
    chain : Chain r.1.nodes (some y.at) (y ∷ remove sq_num xs)
    outside : (j : ℕ) → All (λ z. z.at ≢ j) (y ∷ xs) → Same q.nodes r.1.nodes j
    long : length r.1.nodes ≡ length q.nodes
    first : r.1.next ≡ q.next

  -- One round of the loop, at the node of an entry.
  take_from-found :
      (k : ℕ) (p prev : Option ℕ) (x : Entry)
      → p ≡ some x.at
      → Holds (node_at q.nodes x.at) x
      → (x.priority == sq_num) ≡ true
      → take_from matches (suc k) q p prev ≡ (
        ok (some x.packet),
        record q { nodes = unlink q.nodes x.at prev; length = sub16 q.length 1 },
      )
  unfolding take_from
  take_from-found k p prev x e h t =
      let u : matches (node_at q.nodes x.at) ≡ true = ap (λ n. n == sq_num) h.priority ∙ t in
      rw (e, u)
        (ap (λ v. (ok v, record q { nodes = unlink q.nodes x.at prev; length = sub16 q.length 1 }))
          h.val)

  take_from-skipped :
      (k : ℕ) (p prev : Option ℕ) (x : Entry)
      → p ≡ some x.at
      → Holds (node_at q.nodes x.at) x
      → (x.priority == sq_num) ≡ false
      → take_from matches (suc k) q p prev
        ≡ take_from matches k q (node_at q.nodes x.at).next (some x.at)
  unfolding take_from
  take_from-skipped k p prev x e h t =
      let u : matches (node_at q.nodes x.at) ≡ false = ap (λ n. n == sq_num) h.priority ∙ t in
      rw (e, u) refl

  take_from-Removed :
      (k : ℕ) (y : Entry) (xs : List Entry)
      → length xs ≤ k
      → Chain q.nodes (some y.at) (y ∷ xs)
      → Removed y xs (take_from matches k q (node_at q.nodes y.at).next (some y.at))
  unfolding take_from remove lookup
  take_from-Removed k y [] l c = rw (c.4) (record {
    result = refl;
    chain = c;
    outside = λ j d. record { next = refl; val = refl; priority = refl };
    long = refl;
    first = refl;
  })
  take_from-Removed zero y (x ∷ xs) l c = absurd (omega arith)
  take_from-Removed (suc k) y (x ∷ xs) l (e, b, h, d, (e1, b1, h1, d1, c1)) =
      elim (Bool-cases (x.priority == sq_num)) [
        | inl t ↦
            let s' = unlink q.nodes x.at (some y.at) in
            let r = unlink-Unlinked q.nodes x.at y.at b in
            let rest =
              Chain-Same q.nodes s' _ xs (omega (arith, r.long))
                (All-Same q.nodes x.at y.at s' xs r d1 d.1) c1 in
            subst (Removed y (x ∷ xs)) (sym (take_from-found k _ (some y.at) x e1 h1 t)) (record {
              result = rw (t, lookup) refl;
              chain =
                  rw (t, Chain)
                    (
                      refl,
                      omega (arith, r.long),
                      record {
                        val = r.vals y.at (λ i. d.0 (sym i)) ∙ h.val;
                        priority = r.priorities y.at ∙ h.priority;
                      },
                      d.1,
                      subst (λ p. Chain s' p xs) (sym r.behind) rest,
                    );
              outside = λ j p. record {
                next = r.others j (λ i. p.0 (sym i));
                val = r.vals j (λ i. p.1.0 (sym i));
                priority = r.priorities j;
              };
              long = r.long;
              first = refl;
            })
        | inr t ↦
            let ih = take_from-Removed k x xs (omega arith) (refl, b1, h1, d1, c1) in
            let same = ih.outside y.at d in
            let s' = (take_from matches k q (node_at q.nodes x.at).next (some x.at)).1.nodes in
            subst (Removed y (x ∷ xs)) (sym (take_from-skipped k _ (some y.at) x e1 h1 t)) (record {
              result = rw (t, lookup) ih.result;
              chain =
                  rw (t, Chain)
                    (
                      refl,
                      omega (arith, ih.long),
                      Holds-Same q.nodes _ y same h,
                      (d.0, All-remove (λ w. w.at ≢ y.at) sq_num xs d.1),
                      subst (λ p. Chain s' p (x ∷ remove sq_num xs)) (sym (same.next ∙ e1))
                          ih.chain,
                    );
              outside = λ j p. ih.outside j p.1;
              long = ih.long;
              first = ih.first;
            })
      ]

  -- Clearing the value of the first node.
  cleared-Same :
      (i : ℕ) (xs : List Entry)
      → All (λ x. x.at ≢ i) xs
      → All (λ x. Same q.nodes (clear_val q.nodes i) x.at) xs
  cleared-Same i [] a = tt
  cleared-Same i (x ∷ xs) a = (
    record {
      next = next-clear_val q.nodes i x.at;
      val = val-clear_val_other q.nodes i x.at (λ e. a.0 (sym e));
      priority = priority-clear_val q.nodes i x.at;
    },
    cleared-Same i xs a.1,
  )

  -- `PopAt` on a queue that stands for a list returns, with the first packet of the number, or with
  -- the error that there is none or that the queue is empty; the queue then stands for the list
  -- without that packet.
  pub pop_at-remove :
      (xs : List Entry)
      → IsQueue q xs
      → ((pop_at q sq_num).0 ≡ pop_result sq_num xs)
        × IsQueue (pop_at q sq_num).1 (remove sq_num xs)
  unfolding pop_at take_matching remove lookup pop_result
  pop_at-remove [] v = rw (v.chain, take_matching) (refl, record { chain = v.chain; few = v.few })
  pop_at-remove (x ∷ xs) v =
      let (e, b, h, d, c) = v.chain in
      elim (Bool-cases (x.priority == sq_num)) [
        | inl t ↦
            let u : matches (node_at q.nodes x.at) ≡ true = ap (λ n. n == sq_num) h.priority ∙ t in
            rw (e, take_matching, u, t)
              (
                ap ok h.val,
                record {
                  chain =
                      Chain-Same q.nodes (clear_val q.nodes x.at) _ xs
                        (omega (arith, length-clear_val q.nodes x.at)) (cleared-Same x.at xs d) c;
                  few = omega (arith, v.few, length-clear_val q.nodes x.at);
                },
              )
        | inr t ↦
            let u : matches (node_at q.nodes x.at) ≡ false = ap (λ n. n == sq_num) h.priority ∙ t in
            let (k, len) = predecessor (length q.nodes) (omega (arith, v.few)) in
            let r = take_from matches k q (node_at q.nodes x.at).next (some x.at) in
            let ran : take_from matches (length q.nodes) q (some x.at) (node_at q.nodes x.at).prev
                ≡ r =
              ap (λ n. take_from matches n q (some x.at) (node_at q.nodes x.at).prev) len
              ∙ take_from-skipped k (some x.at) _ x refl h t in
            let out = take_from-Removed k x xs (omega (arith, v.few, len)) (refl, b, h, d, c) in
            rw (e, take_matching, u, t, ran)
              (
                out.result,
                record {
                  chain =
                      subst (λ p. Chain r.1.nodes p (x ∷ remove sq_num xs)) (sym (out.first ∙ e))
                        out.chain;
                  few = omega (arith, v.few, out.long, length-remove sq_num xs);
                },
              )
      ]
