-- ===== src/Twcc/Feedback/Received.antt =====
-- An arrival is added: its number and its time, to the nearest tick.
use mathlib.Core.Option.{some-injective}
use interceptor.Twcc.Feedback.Holds.{
  NearAll, NearAll-snoc, Holds, Added-symbols, length-snoc, skip_to-Holds, last-skip_to,
}
use interceptor.Common.{Bool-cases, ◌||◌, ◌&&◌, none, some, inl, inr}
use interceptor.Common.Int.{pos, sub_ℕ, leb_ℤ, ltb_ℤ}
use interceptor.Common.{
  ℕ, ◌+◌, ◌/◌, ◌<◌, ◌≡◌, refl, sym, ap, subst, ◌∙◌, true, List, [], ◌∷◌, ◌++◌, arith, length,
  All-append, add16, sub16,
}
use interceptor.Common.Int.{ℤ, ◌+ℤ◌, ◌-ℤ◌, mul_ℕ, +ℤ_parts, -ℤ_parts}
use interceptor.Twcc.Chunk.{Symbol, small_delta, large_delta}
use interceptor.Twcc.Chunk.Wire.{Fits}
use interceptor.Twcc.Chunk.Flush.{put-Added}
use interceptor.Twcc.Feedback.{
  RecvDelta, Feedback, put_status, add_received, skip_to, receive, to_ticks,
}
use interceptor.Twcc.Feedback.Decode.{
  is_received, decode, snoc, decode-receive, Matches-receive, advance-snoc,
}
use interceptor.Twcc.Feedback.Rounding.{Near, mul-to_ticks-Near}

pub refused : (g : Feedback) → (none ≡ some g) → ⊥
refused g e = ground arith

module _ (scale base : ℕ) (start : ℤ) (small : base < 65536) (ticking : 0 < scale) where
  module _ (xs : List (ℕ × ℤ)) (f : Feedback) (p : Holds (scale / 2) base start xs f) (t : ℤ) where
    -- the time as it is written, in ticks since the last one
    abbrev gap : ℤ
    gap = mul_ℕ (to_ticks scale (t -ℤ f.last_timestamp_us)) scale

    gap-Near : Near (scale / 2) (f.last_timestamp_us +ℤ gap) t
    gap-Near = omega (
      arith,
      mul-to_ticks-Near scale (t -ℤ f.last_timestamp_us) ticking,
      +ℤ_parts f.last_timestamp_us gap,
      -ℤ_parts t f.last_timestamp_us,
    )

    -- a packet that is received as `s`
    take_in : Symbol → ℕ → Feedback
    take_in s size = record (put_status f s) {
      len = f.len + size;
      deltas = f.deltas ++ (record { type = s; delta = gap } ∷ []);
      last_timestamp_us = f.last_timestamp_us +ℤ gap;
      next_sequence_number = add16 f.next_sequence_number 1;
    }

    take_in-Holds :
        (s : Symbol) (size : ℕ)
        → is_received s ≡ true
        → (q : Holds (scale / 2) base start (snoc xs (f.next_sequence_number, t)) (take_in s size))
          × (length q.statuses ≡ length p.statuses + 1)
    unfolding take_in put_status
    take_in-Holds s size r =
        let a = put-Added f.last_chunk s p.valid in
        let d : RecvDelta = record { type = s; delta = gap } in
        let l = length-snoc p.statuses s in
        (
          record {
            statuses = snoc p.statuses s;
            reads = Added-symbols f s _ a ∙ ap (λ t. snoc t s) p.reads;
            valid = a.valid;
            fits = All-append Fits f.chunks _ p.fits a.fits;
            count = omega (arith, p.count, l);
            next = omega (arith, p.next, l);
            matched = Matches-receive p.statuses f.deltas s d r refl p.matched;
            last = ap (λ (u : ℤ). u +ℤ gap) p.last ∙ sym (advance-snoc start f.deltas d);
            near =
                subst (NearAll (scale / 2) (snoc xs (f.next_sequence_number, t)))
                  (sym (decode-receive base start p.statuses f.deltas s d small r refl p.matched))
                  (NearAll-snoc (scale / 2) xs (decode base start p.statuses f.deltas)
                    (f.next_sequence_number, t) _ (sym p.next)
                    (subst (λ (u : ℤ). Near (scale / 2) (u +ℤ gap) t) p.last gap-Near) p.near);
            based = p.based;
            timed = p.timed;
          },
          l,
        )

    receive-Holds :
        (q : Holds
          (scale / 2)
          base
          start
          (snoc xs (f.next_sequence_number, t))
          (receive scale f (to_ticks scale (t -ℤ f.last_timestamp_us))))
        × (length q.statuses ≡ length p.statuses + 1)
    unfolding receive take_in
    receive-Holds =
        elim (Bool-cases (
          leb_ℤ (pos 0) (to_ticks scale (t -ℤ f.last_timestamp_us))
          && leb_ℤ (to_ticks scale (t -ℤ f.last_timestamp_us)) (pos 255))) [
            | inl e ↦ rw e (take_in-Holds small_delta 1 refl)
            | inr e ↦ rw e (take_in-Holds large_delta 2 refl)
          ]

  skipped-Holds :
      (xs : List (ℕ × ℤ)) (f : Feedback) (p : Holds (scale / 2) base start xs f) (t : ℤ) (seq : ℕ)
      → seq < 65536
      → (q : Holds
          (scale / 2)
          base
          start
          (snoc xs (seq, t))
          (receive scale (skip_to f seq) (to_ticks scale (t -ℤ f.last_timestamp_us))))
        × (length q.statuses ≡ length p.statuses + sub16 seq f.next_sequence_number + 1)
  skipped-Holds xs f p t seq b =
      let s = skip_to-Holds small f seq b p in
      let r = receive-Holds xs (skip_to f seq) s.0 t in
      let shift : length s.0.statuses + 1
          ≡ length p.statuses + sub16 seq f.next_sequence_number + 1 =
        omega (arith, s.1) in
      subst
        (λ (n : ℕ).
          (q : Holds (scale / 2) base start (snoc xs (n, t))
            (receive scale (skip_to f seq) (to_ticks scale (t -ℤ f.last_timestamp_us))))
          × (length q.statuses ≡ length p.statuses + sub16 seq f.next_sequence_number + 1))
        s.2
        (subst
          (λ (u : ℤ).
            (q : Holds (scale / 2) base start (snoc xs ((skip_to f seq).next_sequence_number, t))
              (receive scale (skip_to f seq) (to_ticks scale (t -ℤ u))))
            × (length q.statuses ≡ length p.statuses + sub16 seq f.next_sequence_number + 1))
          (last-skip_to f seq) (r.0, r.1 ∙ shift))

  -- `addReceived`, when it does not refuse.
  pub add_received-Holds :
      (xs : List (ℕ × ℤ)) (f : Feedback) (p : Holds (scale / 2) base start xs f) (t : ℤ) (seq : ℕ)
      (g : Feedback)
      → seq < 65536
      → add_received scale f seq t ≡ some g
      → (q : Holds (scale / 2) base start (snoc xs (seq, t)) g) × (length q.statuses
          ≡ length p.statuses + sub16 seq f.next_sequence_number + 1)
  unfolding add_received
  add_received-Holds xs f p t seq g b e =
      elim (Bool-cases (
        ltb_ℤ (to_ticks scale (t -ℤ f.last_timestamp_us)) (sub_ℕ 0 32768)
        || ltb_ℤ (pos 32767) (to_ticks scale (t -ℤ f.last_timestamp_us)))) [
          | inl r ↦ let z = refused g (rw (r, add_received) at e) in absurd z
          | inr r ↦
              subst
                (λ (h : Feedback).
                  (q : Holds (scale / 2) base start (snoc xs (seq, t)) h) × (length q.statuses
                    ≡ length p.statuses + sub16 seq f.next_sequence_number + 1))
                (some-injective _ g (rw (r, add_received) at e)) (skipped-Holds xs f p t seq b)
        ]
