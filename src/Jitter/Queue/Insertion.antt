-- ===== src/Jitter/Queue/Insertion.antt =====
-- `Push` inserts by number.
use interceptor.Common.{
  ℕ, zero, suc, ◌<◌, ◌≤◌, ◌≡◌, ◌≢◌, refl, sym, ◌∙◌, inl, inr, Option, none, some, List, [], ◌∷◌,
  leb, arith, length, Bool-cases, All, subst,
}
use interceptor.Jitter.Queue.{Node, node_at, set_next, set_prev, link, search}
use interceptor.Jitter.Queue.Store.{
  next-set_next, next-set_next_other, next-set_prev, priority-set_next, priority-set_prev,
  val-set_next, val-set_prev, length-set_next, length-set_prev,
}
use interceptor.Jitter.Queue.Entries.{insert, All-insert}
use interceptor.Jitter.Queue.Chain.{Entry, Holds, Chain, Same, Holds-Same, Chain-Same}

-- The store after the new node has been linked in behind node `b`: `b` leads to the new node, which
-- leads to where `b` led, and the rest is as it was.
record Linked (s : List Node) (n b : ℕ) (head : Option ℕ) (s' : List Node) : Type 0 where
  behind : (node_at s' b).next ≡ some n
  before : (node_at s' n).next ≡ head
  others : (j : ℕ) → j ≢ n → j ≢ b → (node_at s' j).next ≡ (node_at s j).next
  vals : (j : ℕ) → (node_at s' j).val ≡ (node_at s j).val
  priorities : (j : ℕ) → (node_at s' j).priority ≡ (node_at s j).priority
  long : length s' ≡ length s

link-Linked :
    (s : List Node) (n b : ℕ) (head : Option ℕ)
    → b < length s
    → n < length s
    → n ≢ b
    → (node_at s n).next ≡ none
    → Linked s n b head (link s n head (some b))
link-Linked s n b none h k d e =
    let s1 = set_next s (some b) (some n) in
    record {
      behind = next-set_prev s1 (some n) (some b) b ∙ next-set_next s b (some n) h;
      before =
          next-set_prev s1 (some n) (some b) n
          ∙ next-set_next_other s b n (some n) (λ c. d (sym c))
          ∙ e;
      others = λ j p q.
          next-set_prev s1 (some n) (some b) j
          ∙ next-set_next_other s b j (some n) (λ c. q (sym c));
      vals = λ j. val-set_prev s1 (some n) (some b) j ∙ val-set_next s (some b) (some n) j;
      priorities =
          λ j. priority-set_prev s1 (some n) (some b) j ∙ priority-set_next s (some b) (some n) j;
      long = length-set_prev s1 (some n) (some b) ∙ length-set_next s (some b) (some n);
    }
link-Linked s n b (some i) h k d e =
    let s1 = set_next s (some n) (some i) in
    let s2 = set_prev s1 (some n) (some b) in
    let s3 = set_next s2 (some b) (some n) in
    let l2 : length s2 ≡ length s =
      length-set_prev s1 (some n) (some b) ∙ length-set_next s (some n) (some i) in
    record {
      behind =
          next-set_prev s3 (some i) (some n) b ∙ next-set_next s2 b (some n) (omega (arith, l2));
      before =
          next-set_prev s3 (some i) (some n) n
          ∙ next-set_next_other s2 b n (some n) (λ c. d (sym c))
          ∙ next-set_prev s1 (some n) (some b) n
          ∙ next-set_next s n (some i) k;
      others = λ j p q.
          next-set_prev s3 (some i) (some n) j
          ∙ next-set_next_other s2 b j (some n) (λ c. q (sym c))
          ∙ next-set_prev s1 (some n) (some b) j
          ∙ next-set_next_other s n j (some i) (λ c. p (sym c));
      vals = λ j.
          val-set_prev s3 (some i) (some n) j
          ∙ val-set_next s2 (some b) (some n) j
          ∙ val-set_prev s1 (some n) (some b) j
          ∙ val-set_next s (some n) (some i) j;
      priorities = λ j.
          priority-set_prev s3 (some i) (some n) j
          ∙ priority-set_next s2 (some b) (some n) j
          ∙ priority-set_prev s1 (some n) (some b) j
          ∙ priority-set_next s (some n) (some i) j;
      long = length-set_prev s3 (some i) (some n) ∙ length-set_next s2 (some b) (some n) ∙ l2;
    }

Linked-Same :
    (s : List Node) (n b : ℕ) (head : Option ℕ) (s' : List Node)
    → Linked s n b head s'
    → (j : ℕ) → j ≢ n
    → j ≢ b
    → Same s s' j
Linked-Same s n b head s' r j p q = record {
  next = r.others j p q;
  val = r.vals j;
  priority = r.priorities j;
}

module _ (s : List Node) (x : Entry) (inside : x.at < length s) (holds : Holds (node_at s x.at) x)
    (last : (node_at s x.at).next ≡ none) where
  All-Same :
      (y : Entry) (head : Option ℕ) (ys : List Entry) (s' : List Node)
      → Linked s x.at y.at head s'
      → All (λ z. z.at ≢ y.at) ys
      → All (λ z. z.at ≢ x.at) ys
      → All (λ z. Same s s' z.at) ys
  All-Same y head [] s' r d f = tt
  All-Same y head (z ∷ ys) s' r d f =
      (Linked-Same s x.at y.at head s' r z.at f.0 d.0, All-Same y head ys s' r d.1 f.1)

  -- Linking in behind an entry.
  Linked-Chain :
      (y : Entry) (ys : List Entry) (head : Option ℕ) (s' : List Node)
      → (node_at s y.at).next ≡ head
      → Chain s (some y.at) (y ∷ ys)
      → All (λ z. z.at ≢ x.at) (y ∷ ys)
      → Linked s x.at y.at head s'
      → Chain s' (some y.at) (y ∷ x ∷ ys)
  Linked-Chain y ys head s' g (e, b, h, d, c) (f, fresh) r =
      let rest : Chain s' head ys =
        subst (λ p. Chain s' p ys) g
          (Chain-Same s s' _ ys (omega (arith, r.long)) (All-Same y head ys s' r d fresh) c) in
      (
        refl,
        omega (arith, r.long),
        record { val = r.vals y.at ∙ h.val; priority = r.priorities y.at ∙ h.priority },
        ((λ i. f (sym i)), d),
        (
          r.behind,
          omega (arith, r.long),
          record { val = r.vals x.at ∙ holds.val; priority = r.priorities x.at ∙ holds.priority },
          fresh,
          subst (λ p. Chain s' p ys) (sym r.before) rest,
        ),
      )

  -- What the search and the linking behind `y` do.
  pub record Inserted (y : Entry) (ys : List Entry) (s' : List Node) : Type 0 where
    pub chain : Chain s' (some y.at) (y ∷ insert x ys)
    pub outside : (j : ℕ) → j ≢ x.at → All (λ z. z.at ≢ j) (y ∷ ys) → Same s s' j
    pub long : length s' ≡ length s

  pub search-Inserted :
      (k : ℕ) (y : Entry) (ys : List Entry)
      → length ys ≤ k
      → Chain s (some y.at) (y ∷ ys)
      → All (λ z. z.at ≢ x.at) (y ∷ ys)
      → (head : Option ℕ) × (prev : Option ℕ) × (search k s x.priority
            (node_at s y.at).next
            (some y.at)
          ≡ some (head, prev))
        × Inserted y ys (link s x.at head prev)
  unfolding search insert
  search-Inserted k y [] l (e, b, h, d, c) f =
      let r = link-Linked s x.at y.at none b inside (λ i. f.0 (sym i)) last in
      (
        none,
        some y.at,
        rw c refl,
        record {
          chain = Linked-Chain y [] none _ c (e, b, h, d, c) f r;
          outside = λ j p q. Linked-Same s x.at y.at none _ r j p (λ i. q.0 (sym i));
          long = r.long;
        },
      )
  search-Inserted zero y (z ∷ zs) l c f = absurd (omega arith)
  search-Inserted (suc k) y (z ∷ zs) l (e, b, h, d, (e1, b1, h1, d1, c1)) f =
      elim (Bool-cases (leb x.priority z.priority)) [
        | inl t ↦
            let r = link-Linked s x.at y.at (some z.at) b inside (λ i. f.0 (sym i)) last in
            (
              some z.at,
              some y.at,
              rw (e1, h1.priority, t) refl,
              record {
                chain =
                    rw (t, Chain)
                      (Linked-Chain y (z ∷ zs) (some z.at) _ e1 (e, b, h, d, (e1, b1, h1, d1, c1)) f
                        r);
                outside = λ j p q. Linked-Same s x.at y.at (some z.at) _ r j p (λ i. q.0 (sym i));
                long = r.long;
              },
            )
        | inr t ↦
            let (head, prev, found, ih) =
              search-Inserted k z zs (omega arith) (refl, b1, h1, d1, c1) f.1 in
            let same = ih.outside y.at f.0 d in
            (
              head,
              prev,
              rw (e1, h1.priority, t) found,
              record {
                chain =
                    rw (t, Chain)
                      (
                        refl,
                        omega (arith, ih.long),
                        Holds-Same s _ y same h,
                        (d.0, All-insert (λ w. w.at ≢ y.at) x zs (λ i. f.0 (sym i)) d.1),
                        subst (λ p. Chain (link s x.at head prev) p (z ∷ insert x zs))
                            (sym (same.next ∙ e1)) ih.chain,
                      );
                outside = λ j p q. ih.outside j p q.1;
                long = ih.long;
              },
            )
      ]
