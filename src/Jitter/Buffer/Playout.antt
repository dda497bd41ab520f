-- ===== src/Jitter/Buffer/Playout.antt =====
-- What the buffer plays out.
use interceptor.Common.{
  ℕ, zero, suc, ◌+◌, ◌≤◌, ◌<◌, ◌≡◌, ◌≢◌, refl, sym, ap, ap₂, ◌∙◌, inl, inr, false, Option, some,
  List, [], ◌∷◌, map, ◌==◌, arith, if◌then◌else◌, length, Bool-cases, add16, sub16, subst,
}
use interceptor.Jitter.Queue.{Packet, PriorityQueue, Result, ok, failed, hangs}
use interceptor.Jitter.Queue
use interceptor.Jitter.Queue.Chain.{Entry, lookup, IsQueue}
use interceptor.Jitter.Queue.Entries.{remove, pop_result}
use interceptor.Jitter.Queue.Removal.{pop_at-remove}
use interceptor.Jitter.Buffer.{
  JitterBuffer, Event, emitting, update_state, pop, pop_at_sequence, finish_pop, is_buffering,
}

-- the results of `n` calls of `Pop`
pub pop_run : ℕ → JitterBuffer → List (Result (Option Packet))
pop_run zero jb = []
pop_run (suc n) jb = let r = pop jb in r.0 ∷ pop_run n r.2

-- The list holds the packets of the numbers from `head` on, which wrap after 65535.
abbrev pub Ready : List Entry → ℕ → List Packet → Type 0
Ready xs head [] = Unit
Ready xs head (p ∷ ps) = (lookup head xs ≡ ok (some p)) × Ready xs (add16 head 1) ps

lookup-remove : (m k : ℕ) (xs : List Entry) → m ≢ k → lookup m (remove k xs) ≡ lookup m xs
unfolding lookup remove
lookup-remove m k [] n = refl
lookup-remove m k (x ∷ xs) n = elim (Bool-cases (x.priority == k)) [
  | inl e ↦ let f : (x.priority == m) ≡ false = ground (arith, n) in rw (e, f) refl
  | inr e ↦
      rw (e, lookup)
        (ap (λ r. if x.priority == m then ok (some x.packet) else r) (lookup-remove m k xs n))
]

-- Taking out a number that does not come among the next ones.
Ready-remove :
    (k m : ℕ) (xs : List Entry) (ps : List Packet)
    → k < 65536
    → m < 65536
    → 0 < sub16 m k
    → sub16 m k + length ps ≤ 65536
    → Ready xs m ps
    → Ready (remove k xs) m ps
Ready-remove k m xs [] a b c d r = tt
Ready-remove k m xs (p ∷ []) a b c d (e, r) =
    (lookup-remove m k xs (λ i. absurd (ground (arith, i))) ∙ e, tt)
Ready-remove k m xs (p ∷ p' ∷ ps) a b c d (e, r) = (
  lookup-remove m k xs (λ i. absurd (ground (arith, i))) ∙ e,
  Ready-remove k (add16 m 1) xs (p' ∷ ps) a (ground arith) (ground arith) (ground arith) r,
)

update_state-emitting : (jb : JitterBuffer) → jb.state ≡ emitting → update_state jb ≡ ([], jb)
unfolding update_state
update_state-emitting jb e = ground (arith, e)

pop_result-lookup :
    (n : ℕ) (xs : List Entry) (p : Packet)
    → lookup n xs ≡ ok (some p)
    → pop_result n xs ≡ ok (some p)
unfolding pop_result lookup
pop_result-lookup n [] p e = absurd (ground arith)
pop_result-lookup n (x ∷ xs) p e = e

-- One call of `Pop` that finds its packet.
record Played (jb : JitterBuffer) (xs : List Entry) (p : Packet)
    (r : Result (Option Packet) × List Event × JitterBuffer) : Type 0 where
  result : r.0 ≡ ok (some p)
  playing : r.2.state ≡ emitting
  head : r.2.playout_head ≡ add16 jb.playout_head 1
  queue : IsQueue r.2.packets (remove jb.playout_head xs)

finish_pop-ok :
    (jb : JitterBuffer) (head : ℕ) (r : Result (Option Packet) × PriorityQueue) (p : Packet)
    → jb.state ≡ emitting
    → r.0 ≡ ok (some p)
    → finish_pop jb head r ≡ (ok (some p), [], record jb { packets = r.1; playout_head = head })
finish_pop-ok jb head (ok v, q) p e h =
    rw (update_state-emitting (record jb { packets = q; playout_head = head }) e)
      (ap (λ o. (o, [], record jb { packets = q; playout_head = head })) h)
finish_pop-ok jb head (failed x, q) p e h = absurd (ground arith)
finish_pop-ok jb head (hangs, q) p e h = absurd (ground arith)

pop-Played :
    (jb : JitterBuffer) (xs : List Entry) (p : Packet)
    → jb.state ≡ emitting
    → IsQueue jb.packets xs
    → lookup jb.playout_head xs ≡ ok (some p)
    → Played jb xs p (pop jb)
unfolding pop pop_at_sequence
pop-Played jb xs p e v l =
    let (out, left) = pop_at-remove jb.packets jb.playout_head xs v in
    let b : is_buffering jb.state ≡ false = ap is_buffering e in
    let done =
      finish_pop-ok jb (add16 jb.playout_head 1) (Queue.pop_at jb.packets jb.playout_head) p e
        (out ∙ pop_result-lookup jb.playout_head xs p l) in
    rw (b, done) (record { result = refl; playing = e; head = refl; queue = left })

-- A buffer that is playing, and whose queue stands for a list that holds the packets of the numbers
-- from the playout head on, hands out exactly these packets, in the order of their numbers and past
-- the wrap-around, in as many calls of `Pop`, whatever else the queue holds and in whatever order
-- the packets came.
pub pop_run-Ready :
    (ps : List Packet) (jb : JitterBuffer) (xs : List Entry)
    → jb.state ≡ emitting
    → IsQueue jb.packets xs
    → jb.playout_head < 65536
    → length ps ≤ 65536
    → Ready xs jb.playout_head ps
    → pop_run (length ps) jb ≡ map (λ p. ok (some p)) ps
unfolding pop_run
pop_run-Ready [] jb xs e v h l r = refl
pop_run-Ready (p ∷ ps) jb xs e v h l (f, r) =
    let out = pop-Played jb xs p e v f in
    let rest =
      Ready-remove jb.playout_head (add16 jb.playout_head 1) xs ps h (ground arith) (ground arith)
        (ground arith) r in
    let next =
      pop_run-Ready ps (pop jb).2 (remove jb.playout_head xs) out.playing out.queue
        (ground (arith, out.head)) (omega arith)
        (subst (λ m. Ready (remove jb.playout_head xs) m ps) (sym out.head) rest) in
    ap₂ (λ a b. a ∷ b) out.result next
