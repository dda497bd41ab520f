-- ===== src/Jitter/Queue/Unlinked.antt =====
-- A node taken out from behind another one.
use interceptor.Common.{ℕ, ◌<◌, ◌≡◌, ◌≢◌, sym, ◌∙◌, some, List, [], ◌∷◌, arith, length, All}
use interceptor.Jitter.Queue.{Node, node_at, set_next, clear_val, unlink}
use interceptor.Jitter.Queue.Store.{
  next-set_next, next-set_next_other, next-set_prev, priority-set_next, priority-set_prev,
  val-set_next, val-set_prev, length-set_next, length-set_prev, next-clear_val, priority-clear_val,
  val-clear_val_other, length-clear_val,
}
use interceptor.Jitter.Queue.Chain.{Entry, Same}

-- The store after node `i` has been taken out from behind node `b`.
pub record Unlinked (s : List Node) (i b : ℕ) (s' : List Node) : Type 0 where
  pub behind : (node_at s' b).next ≡ (node_at s i).next
  pub others : (j : ℕ) → j ≢ b → (node_at s' j).next ≡ (node_at s j).next
  pub vals : (j : ℕ) → j ≢ i → (node_at s' j).val ≡ (node_at s j).val
  pub priorities : (j : ℕ) → (node_at s' j).priority ≡ (node_at s j).priority
  pub long : length s' ≡ length s

pub unlink-Unlinked :
    (s : List Node) (i b : ℕ) → b < length s → Unlinked s i b (unlink s i (some b))
unlink-Unlinked s i b h =
    let p = (node_at s i).next in
    let s1 = clear_val s i in
    let s2 = set_next s1 (some b) p in
    record {
      behind =
          next-set_prev s2 p (some b) b
          ∙ next-set_next s1 b p (omega (arith, length-clear_val s i));
      others = λ j d.
          next-set_prev s2 p (some b) j
          ∙ next-set_next_other s1 b j p (λ e. d (sym e))
          ∙ next-clear_val s i j;
      vals = λ j d.
          val-set_prev s2 p (some b) j
          ∙ val-set_next s1 (some b) p j
          ∙ val-clear_val_other s i j (λ e. d (sym e));
      priorities = λ j.
          priority-set_prev s2 p (some b) j
          ∙ priority-set_next s1 (some b) p j
          ∙ priority-clear_val s i j;
      long = length-set_prev s2 p (some b) ∙ length-set_next s1 (some b) p ∙ length-clear_val s i;
    }

pub All-Same :
    (s : List Node) (i b : ℕ) (s' : List Node) (xs : List Entry)
    → Unlinked s i b s'
    → All (λ x. x.at ≢ i) xs
    → All (λ x. x.at ≢ b) xs
    → All (λ x. Same s s' x.at) xs
All-Same s i b s' [] r a c = tt
All-Same s i b s' (x ∷ xs) r a c = (
  record { next = r.others x.at c.0; val = r.vals x.at a.0; priority = r.priorities x.at },
  All-Same s i b s' xs r a.1 c.1,
)
