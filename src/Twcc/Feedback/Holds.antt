-- ===== src/Twcc/Feedback/Holds.antt =====
-- What a feedback packet holds while it is built: the arrivals that were added to it.
use mathlib.Core.List.{append_assoc}
use interceptor.Common.{
  ℕ, zero, suc, ◌+◌, ◌%◌, ◌<◌, ◌≡◌, refl, sym, ap, subst, ◌∙◌, List, [], ◌∷◌, ◌++◌, arith, length,
  length-append, All, All-append, add16, sub16,
}
use interceptor.Common.Int.{ℤ, mul_ℕ}
use interceptor.Common.Range.{for_range, rounds}
use interceptor.Twcc.Chunk.{Symbol, not_received, StatusChunk, Chunk, put}
use interceptor.Twcc.Chunk.Wire.{read_all, Fits, append-read_all}
use interceptor.Twcc.Chunk.Valid.{IsValid}
use interceptor.Twcc.Chunk.Flush.{Added, put-Added}
use interceptor.Twcc.Feedback.{Feedback, put_status, skip_to}
use interceptor.Twcc.Feedback.Decode.{decode, advance, Matches, snoc, decode-skip, Matches-skip}
use interceptor.Twcc.Feedback.Rounding.{Near}

-- the statuses so far, written out or not
abbrev pub symbols : Feedback → List Symbol
symbols f = read_all f.chunks ++ f.last_chunk.deltas

-- The same numbers, and times that are at most `h` apart.
abbrev pub NearAll : ℕ → List (ℕ × ℤ) → List (ℕ × ℤ) → Type 0
NearAll h [] [] = Unit
NearAll h [] (y ∷ ys) = ⊥
NearAll h (x ∷ xs) [] = ⊥
NearAll h (x ∷ xs) (y ∷ ys) = (y.0 ≡ x.0) × Near h y.1 x.1 × NearAll h xs ys

pub NearAll-snoc :
    (h : ℕ) (xs ys : List (ℕ × ℤ)) (x y : ℕ × ℤ)
    → y.0 ≡ x.0
    → Near h y.1 x.1
    → NearAll h xs ys
    → NearAll h (snoc xs x) (snoc ys y)
NearAll-snoc h [] [] x y e n a = (e, n, tt)
NearAll-snoc h [] (z ∷ ys) x y e n a = absurd a
NearAll-snoc h (z ∷ xs) [] x y e n a = absurd a
NearAll-snoc h (z ∷ xs) (w ∷ ys) x y e n a = (a.0, a.1, NearAll-snoc h xs ys x y e n a.2)

-- The packet starts at the number `base` and the time `start`, and `xs` was added.
pub record Holds (h base : ℕ) (start : ℤ) (xs : List (ℕ × ℤ)) (f : Feedback) : Type 0 where
  pub statuses : List Symbol
  pub reads : symbols f ≡ statuses
  pub valid : IsValid f.last_chunk
  pub fits : All Fits f.chunks
  pub count : f.sequence_number_count ≡ length statuses % 65536
  pub next : f.next_sequence_number ≡ (base + length statuses) % 65536
  pub matched : Matches statuses f.deltas
  pub last : f.last_timestamp_us ≡ advance start f.deltas
  pub near : NearAll h xs (decode base start statuses f.deltas)
  pub based : f.base_sequence_number ≡ base
  pub timed : mul_ℕ f.ref_timestamp_64ms 64000 ≡ start

pub Added-symbols :
    (f : Feedback) (s : Symbol) (r : List StatusChunk × Chunk)
    → Added (snoc f.last_chunk.deltas s) r
    → read_all (f.chunks ++ r.0) ++ r.1.deltas ≡ snoc (symbols f) s
Added-symbols f s r a =
    ap (λ (t : List Symbol). t ++ r.1.deltas) (append-read_all f.chunks r.0)
    ∙ (append_assoc (read_all f.chunks) (read_all r.0) r.1.deltas
        ∙ (ap (λ (t : List Symbol). read_all f.chunks ++ t) a.kept
            ∙ sym (append_assoc (read_all f.chunks) f.last_chunk.deltas (s ∷ []))))

pub symbols-put_status :
    (f : Feedback) (s : Symbol)
    → IsValid f.last_chunk
    → symbols (put_status f s) ≡ snoc (symbols f) s
unfolding put_status
symbols-put_status f s v = Added-symbols f s (put f.last_chunk s) (put-Added f.last_chunk s v)

-- the number `f.next_sequence_number` has not come
abbrev pub miss : ℕ → Feedback → Feedback
miss i g = record (put_status g not_received) { next_sequence_number = add16 i 1 }

pub length-snoc : (ss : List Symbol) (s : Symbol) → length (snoc ss s) ≡ length ss + 1
length-snoc ss s = length-append ss (s ∷ [])

module _ {h base : ℕ} {start : ℤ} {xs : List (ℕ × ℤ)} (small : base < 65536) where
  miss-Holds :
      (f : Feedback) (p : Holds h base start xs f)
      → (q : Holds h base start xs (miss f.next_sequence_number f)) × (length q.statuses
          ≡ length p.statuses + 1)
  unfolding put_status
  miss-Holds f p =
      let a = put-Added f.last_chunk not_received p.valid in
      let l = length-snoc p.statuses not_received in
      (
        record {
          statuses = snoc p.statuses not_received;
          reads = Added-symbols f not_received _ a ∙ ap (λ t. snoc t not_received) p.reads;
          valid = a.valid;
          fits = All-append Fits f.chunks _ p.fits a.fits;
          count = omega (arith, p.count, l);
          next = omega (arith, p.next, l);
          matched = Matches-skip 1 p.statuses f.deltas p.matched;
          last = p.last;
          near =
              subst (NearAll h xs) (sym (decode-skip 1 base start p.statuses f.deltas p.matched))
                p.near;
          based = p.based;
          timed = p.timed;
        },
        l,
      )

  miss_run :
      (k i : ℕ) (f : Feedback) (p : Holds h base start xs f)
      → f.next_sequence_number ≡ i
      → (q : Holds h base start xs (rounds miss k i f)) × (length q.statuses
          ≡ length p.statuses + k)
  unfolding rounds
  miss_run zero i f p e = (p, omega arith)
  miss_run (suc k) i f p e =
      let q : (q : Holds h base start xs (miss i f)) × (length q.statuses ≡ length p.statuses + 1) =
        subst
          (λ (j : ℕ).
            (q : Holds h base start xs (miss j f)) × (length q.statuses ≡ length p.statuses + 1))
          e (miss-Holds f p) in
      let r = miss_run k (add16 i 1) (miss i f) q.0 refl in (r.0, omega (arith, r.1, q.1))

  -- The numbers before `seq` are skipped, and `seq` is the next one.
  pub skip_to-Holds :
      (f : Feedback) (seq : ℕ)
      → seq < 65536
      → (p : Holds h base start xs f)
      → (q : Holds h base start xs (skip_to f seq)) × (length q.statuses
          ≡ length p.statuses + sub16 seq f.next_sequence_number)
        × ((skip_to f seq).next_sequence_number ≡ seq)
  unfolding skip_to for_range
  skip_to-Holds f seq b p =
      let k = sub16 seq f.next_sequence_number in
      let r = miss_run k f.next_sequence_number f p refl in
      let n = r.0.next in (r.0, r.1, omega (arith, n, r.1, p.next))

last-rounds : (k i : ℕ) (f : Feedback) → (rounds miss k i f).last_timestamp_us ≡ f.last_timestamp_us
unfolding rounds put_status
last-rounds zero i f = refl
last-rounds (suc k) i f = last-rounds k (add16 i 1) (miss i f)

pub last-skip_to :
    (f : Feedback) (seq : ℕ) → (skip_to f seq).last_timestamp_us ≡ f.last_timestamp_us
unfolding skip_to for_range
last-skip_to f seq = last-rounds (sub16 seq f.next_sequence_number) f.next_sequence_number f
