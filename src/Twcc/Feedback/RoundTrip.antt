-- ===== src/Twcc/Feedback/RoundTrip.antt =====
-- A feedback packet from the first number to the RTCP packet, read again.
use mathlib.Core.List.{append_assoc, append-nil}
use mathlib.Core.Option.{some-injective}
use interceptor.Common.{
  ℕ, zero, suc, ◌+◌, ◌*◌, ◌/◌, ◌<◌, ◌≡◌, refl, sym, ap, subst, ◌∙◌, inl, inr, Option, some, List,
  [], ◌∷◌, ◌++◌, arith, length, take, replicate, All, All-append, add16, sub16, Option-cases,
}
use interceptor.Common.Int.{ℤ, emod, pos, mul_ℕ}
use interceptor.Twcc.Chunk.{Symbol, not_received, StatusChunk}
use interceptor.Twcc.Chunk.Wire.{read_all, Fits, append-read_all}
use interceptor.Twcc.Chunk.Valid.{empty-IsValid}
use interceptor.Twcc.Chunk.Flush.{Flushed, flush-Flushed}
use interceptor.Twcc.Feedback.{
  Feedback, new, set_base, add_received, add_all, TransportLayerCc, finish, get_rtcp,
}
use interceptor.Twcc.Feedback.Decode.{decode, decode-nil, snoc}
use interceptor.Twcc.Feedback.Holds.{NearAll, Holds, symbols}
use interceptor.Twcc.Feedback.Received.{refused, add_received-Holds}

-- the statuses that a run of arrivals takes, when `n` is the next number
abbrev pub spanned : ℕ → List (ℕ × ℤ) → ℕ
spanned n [] = 0
spanned n (x ∷ xs) = sub16 x.0 n + 1 + spanned (add16 x.0 1) xs

pub set_base-Holds :
    (h sender media count base : ℕ) (t : ℤ)
    → base < 65536
    → (p : Holds h base
        (set_base (new sender media count) base t).last_timestamp_us
        []
        (set_base (new sender media count) base t))
      × (length p.statuses ≡ 0)
unfolding set_base new
set_base-Holds h sender media count base t b = (
  record {
    statuses = [];
    reads = refl;
    valid = empty-IsValid;
    fits = tt;
    count = refl;
    next = omega arith;
    matched = tt;
    last = refl;
    near = subst (NearAll h []) (sym (decode-nil base _ [])) tt;
    based = refl;
    timed = refl;
  },
  refl,
)

append-snoc : (xs ys : List (ℕ × ℤ)) (x : ℕ × ℤ) → snoc xs x ++ ys ≡ xs ++ (x ∷ ys)
append-snoc xs ys x = append_assoc xs (x ∷ []) ys

module _ (scale base : ℕ) (start : ℤ) (small : base < 65536) (ticking : 0 < scale) where
  pub add_all-Holds :
      (ys xs : List (ℕ × ℤ)) (f : Feedback) (p : Holds (scale / 2) base start xs f) (n : ℕ)
      (g : Feedback)
      → f.next_sequence_number ≡ n
      → All (λ (y : ℕ × ℤ). y.0 < 65536) ys
      → add_all scale f ys ≡ some g
      → (q : Holds (scale / 2) base start (xs ++ ys) g) × (length q.statuses
          ≡ length p.statuses + spanned n ys)
  unfolding add_all
  add_all-Holds [] xs f p n g i b e =
      let l : length p.statuses ≡ length p.statuses + 0 = omega arith in
      subst
        (λ (h : Feedback).
          (q : Holds (scale / 2) base start (xs ++ []) h) × (length q.statuses
            ≡ length p.statuses + 0))
        (some-injective f g e)
        (subst
          (λ (zs : List (ℕ × ℤ)).
            (q : Holds (scale / 2) base start zs f) × (length q.statuses ≡ length p.statuses + 0))
          (sym (append-nil xs)) (p, l))
  add_all-Holds (y ∷ ys) xs f p n g i b e = elim (Option-cases (add_received scale f y.0 y.1)) [
    | inl r ↦ absurd (refused g (rw r at e))
    | inr (m, r) ↦
        let a = add_received-Holds scale base start small ticking xs f p y.1 y.0 m b.0 r in
        let next = a.0.next in
        let c =
          add_all-Holds ys (snoc xs y) m a.0 (add16 y.0 1) g (omega (arith, next, a.1, p.next, i))
            b.1 (rw r at e) in
        let l : length c.0.statuses
            ≡ length p.statuses + (sub16 y.0 n + 1 + spanned (add16 y.0 1) ys) =
          omega (arith, c.1, a.1, i) in
        subst
          (λ (zs : List (ℕ × ℤ)).
            (q : Holds (scale / 2) base start zs g) × (length q.statuses
              ≡ length p.statuses + (sub16 y.0 n + 1 + spanned (add16 y.0 1) ys)))
          (append-snoc xs ys y) (c.0, l)
  ]

-- What is read of the packet: the given number of statuses, from the reference time on.
abbrev pub arrivals : TransportLayerCc → List (ℕ × ℤ)
arrivals p =
    decode p.base_sequence_number (mul_ℕ (pos p.reference_time) 64000)
      (take p.packet_status_count (read_all p.packet_chunks)) p.recv_deltas

take_append : (ss ts : List Symbol) (n : ℕ) → n ≡ length ss → take n (ss ++ ts) ≡ ss
take_append [] ts zero e = refl
take_append [] ts (suc n) e = absurd (omega arith)
take_append (s ∷ ss) ts zero e = absurd (omega arith)
take_append (s ∷ ss) ts (suc n) e =
    ap (λ (t : List Symbol). s ∷ t) (take_append ss ts n (omega arith))

written :
    (f : Feedback) (ss : List Symbol) (o : Option (List StatusChunk))
    → (r : Flushed f.last_chunk.deltas o) → symbols f ≡ ss
    → read_all (f.chunks ++ r.written) ≡ ss ++ replicate r.padding not_received
written f ss o r e =
    append-read_all f.chunks r.written
    ∙ (ap (λ (t : List Symbol). read_all f.chunks ++ t) r.reads
        ∙ (sym (
              append_assoc (read_all f.chunks) f.last_chunk.deltas
                (replicate r.padding not_received))
            ∙ ap (λ (t : List Symbol). t ++ replicate r.padding not_received) e))

start_time :
    (r : ℤ) (τ : ℕ)
    → τ < 4294967296 * 64000
    → mul_ℕ r 64000 ≡ mul_ℕ (pos (τ / 64000)) 64000
    → mul_ℕ (pos (emod r 4294967296)) 64000 ≡ mul_ℕ (pos (τ / 64000)) 64000
start_time r τ h e = ground arith

module _ (h base τ : ℕ) (late : τ < 4294967296 * 64000) where
  pub get_rtcp-arrivals :
      (xs : List (ℕ × ℤ)) (f : Feedback) (p : Holds h base (mul_ℕ (pos (τ / 64000)) 64000) xs f)
      → length p.statuses < 65536
      → (rep : TransportLayerCc) × (get_rtcp f ≡ some rep)
        × NearAll h xs (arrivals rep)
        × All Fits rep.packet_chunks
  unfolding get_rtcp
  get_rtcp-arrivals xs f p short =
      let r = flush-Flushed (length f.last_chunk.deltas) f.last_chunk p.valid (omega arith) in
      let w = written f p.statuses _ r p.reads in
      let t =
        ap (take f.sequence_number_count) w
        ∙ take_append p.statuses (replicate r.padding not_received) f.sequence_number_count
            (omega (arith, p.count)) in
      (
        _,
        ap (finish f) r.ends,
        rw (t, p.based, start_time f.ref_timestamp_64ms τ late p.timed) p.near,
        All-append Fits f.chunks r.written p.fits r.fits,
      )

-- A feedback packet that begins at the number `base` and the time `τ` (in microseconds from 0, below
-- 2 ^ 32 times 64 milliseconds), to which the arrivals `xs` of 16-bit numbers were added, none of
-- them refused, and that spans fewer than 65536 numbers: `getRTCP` returns, every chunk of its packet
-- can be written down, and what is read of the packet from its own base, reference time, statuses and
-- deltas is the same numbers in the same order, each with a time at most half a tick from the true
-- one: the rounding of one time does not add to that of the next.
pub get_rtcp-add_all :
    (scale sender media count base τ : ℕ) (xs : List (ℕ × ℤ)) (f : Feedback)
    → 0 < scale
    → base < 65536
    → τ < 4294967296 * 64000
    → All (λ (x : ℕ × ℤ). x.0 < 65536) xs
    → spanned base xs < 65536
    → add_all scale (set_base (new sender media count) base (pos τ)) xs ≡ some f
    → (rep : TransportLayerCc) × (get_rtcp f ≡ some rep)
      × NearAll (scale / 2) xs (arrivals rep)
      × All Fits rep.packet_chunks
unfolding set_base new
get_rtcp-add_all scale sender media count base τ xs f ticking small late bounds short e =
    let p = set_base-Holds (scale / 2) sender media count base (pos τ) small in
    let q = add_all-Holds scale base _ small ticking xs [] _ p.0 base f refl bounds e in
    get_rtcp-arrivals (scale / 2) base τ late xs f q.0 (omega (arith, q.1, p.1))
