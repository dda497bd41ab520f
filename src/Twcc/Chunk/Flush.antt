-- ===== src/Twcc/Chunk/Flush.antt =====
-- Nothing is lost between `add` and the packet: what `put` writes out as it goes, and the loop of
-- `getRTCP` that writes out the rest.
use mathlib.Core.List.{append-nil, append_assoc}
use native.Mathlib.Decide.{dec_lt}
use interceptor.Common.{
  ℕ, zero, suc, ◌-◌, ◌≤◌, ◌<◌, ◌≡◌, subst, refl, sym, ap, ◌∙◌, inl, inr, true, false, Option, some,
  List, [], ◌∷◌, ◌++◌, arith, length, take, drop, replicate, Bool-cases, ltb, All,
}
use interceptor.Twcc.Chunk.{
  Symbol, not_received, StatusChunk, two_bit, Chunk, empty, can_add, add, remainder, encode, put,
  cons_chunk, flush,
}
use interceptor.Twcc.Chunk.Wire.{pad, pad-short, read, read_all, Fits}
use interceptor.Twcc.Chunk.Valid.{IsValid, Encoded, add-IsValid, encode_run, encode-Encoded}

-- `ds` with one status more
pub record Added (ds : List Symbol) (r : List StatusChunk × Chunk) : Type 0 where
  pub kept : read_all r.0 ++ r.1.deltas ≡ ds
  pub fits : All Fits r.0
  pub valid : IsValid r.1

deltas-add : (c : Chunk) (d : Symbol) → (add c d).deltas ≡ c.deltas ++ (d ∷ [])
unfolding add
deltas-add c d = refl

add_short : (c : Chunk) (d : Symbol) → length c.deltas < 7 → can_add c d ≡ true
unfolding can_add
add_short c d h = ground arith

add_long : (c : Chunk) (d : Symbol) → can_add c d ≡ false → 7 ≤ length c.deltas
add_long c d h = ground (arith, add_short c d)

put_written :
    (c : Chunk) (d : Symbol) (r : StatusChunk × Chunk)
    → Encoded c.deltas r
    → Added (c.deltas ++ (d ∷ [])) (r.0 ∷ [], add r.1 d)
put_written c d r e = record {
  kept =
      ap (λ (t : List Symbol). t ++ (add r.1 d).deltas) (append-nil (read r.0))
      ∙ (ap (λ (t : List Symbol). read r.0 ++ t) (deltas-add r.1 d)
          ∙ (sym (append_assoc (read r.0) r.1.deltas (d ∷ []))
              ∙ ap (λ (t : List Symbol). t ++ (d ∷ [])) e.kept));
  fits = (e.fits, tt);
  valid = add-IsValid r.1 d e.valid (add_short r.1 d e.short);
}

pub put-Added : (c : Chunk) (d : Symbol) → IsValid c → Added (c.deltas ++ (d ∷ [])) (put c d)
unfolding put
put-Added c d v = elim (Bool-cases (can_add c d)) [
  | inl e ↦ rw e (record { kept = deltas-add c d; fits = tt; valid = add-IsValid c d v e })
  | inr e ↦ rw e (put_written c d (encode c) (encode-Encoded c v (add_long c d e)))
]

take_all : (n : ℕ) (ds : List Symbol) → length ds ≤ n → take n ds ≡ ds
take_all zero [] h = refl
take_all zero (d ∷ ds) h = absurd (omega arith)
take_all (suc n) [] h = refl
take_all (suc n) (d ∷ ds) h = ap (λ (t : List Symbol). d ∷ t) (take_all n ds (omega arith))

drop_all : (n : ℕ) (ds : List Symbol) → length ds ≤ n → drop n ds ≡ []
drop_all zero [] h = refl
drop_all zero (d ∷ ds) h = absurd (omega arith)
drop_all (suc n) [] h = refl
drop_all (suc n) (d ∷ ds) h = drop_all n ds (omega arith)

nil_of_length : (ds : List Symbol) → length ds ≡ 0 → ds ≡ []
nil_of_length [] h = refl
nil_of_length (d ∷ ds) h = absurd (omega arith)

flush_more :
    (k : ℕ) (c : Chunk)
    → ltb 0 (length c.deltas) ≡ true
    → flush (suc k) c ≡ cons_chunk (encode c).0 (flush k (encode c).1)
unfolding flush
flush_more k c e = rw (e, flush) refl

-- The loop ended, and its chunks read as `ds`, filled up.
pub record Flushed (ds : List Symbol) (o : Option (List StatusChunk)) : Type 0 where
  pub written : List StatusChunk
  pub padding : ℕ
  pub ends : o ≡ some written
  pub reads : read_all written ≡ ds ++ replicate padding not_received
  pub fits : All Fits written

flush_nil : (k : ℕ) (c : Chunk) → c.deltas ≡ [] → Flushed c.deltas (flush k c)
unfolding flush
flush_nil zero c e =
    rw e (record { written = []; padding = 0; ends = refl; reads = refl; fits = tt })
flush_nil (suc k) c e =
    rw e (record { written = []; padding = 0; ends = refl; reads = refl; fits = tt })

flush-Encoded :
    (ds : List Symbol) (r : StatusChunk × Chunk) (o : Option (List StatusChunk))
    → Encoded ds r
    → Flushed r.1.deltas o
    → Flushed ds (cons_chunk r.0 o)
flush-Encoded ds r o e f = record {
  written = r.0 ∷ f.written;
  padding = f.padding;
  ends = ap (cons_chunk r.0) f.ends;
  reads =
      ap (λ (t : List Symbol). read r.0 ++ t) f.reads
      ∙ (sym (append_assoc (read r.0) r.1.deltas (replicate f.padding not_received))
          ∙ ap (λ (t : List Symbol). t ++ replicate f.padding not_received) e.kept);
  fits = (e.fits, f.fits);
}

flush_nothing : (k : ℕ) → flush k (remainder []) ≡ some []
unfolding flush remainder
flush_nothing zero = refl
flush_nothing (suc k) = refl

-- A vector that is not full is the last chunk.
flush_part :
    (k : ℕ) (ds : List Symbol)
    → length ds < 7
    → Flushed ds (cons_chunk (two_bit (take 7 ds)) (flush k (remainder (drop 7 ds))))
flush_part k ds h = rw (take_all 7 ds (omega arith)) (record {
  written = two_bit ds ∷ [];
  padding = 7 - length ds;
  ends = rw (drop_all 7 ds (omega arith)) (ap (cons_chunk (two_bit ds)) (flush_nothing k));
  reads = append-nil (pad 7 ds) ∙ pad-short 7 (7 - length ds) ds (omega arith);
  fits = (omega arith, tt);
})

flush_last :
    (k : ℕ) (c : Chunk)
    → IsValid c
    → length c.deltas < 7
    → Flushed c.deltas (cons_chunk (encode c).0 (flush k (encode c).1))
unfolding encode
flush_last k c v h = ground (
  arith,
  flush_part k c.deltas,
  λ (d : c.has_different_types ≡ false).
      flush-Encoded c.deltas _ (flush k empty) (encode_run c v d) (flush_nil k empty refl),
)

-- The loop of `getRTCP` over a valid chunk ends after at most as many rounds as there are statuses in
-- it, and the chunks that it writes, each of which fits the wire, are read as exactly these statuses,
-- in order, filled up with statuses of packets that have not come.
pub flush-Flushed :
    (k : ℕ) (c : Chunk) → IsValid c → length c.deltas ≤ k → Flushed c.deltas (flush k c)
flush-Flushed zero c v h = flush_nil zero c (nil_of_length c.deltas (omega arith))
flush-Flushed (suc k) c v h = elim (Bool-cases (ltb 0 (length c.deltas))) [
  | inr e ↦ flush_nil (suc k) c (nil_of_length c.deltas (ground arith))
  | inl e ↦ subst (Flushed c.deltas) (sym (flush_more k c e)) (elim (dec_lt (length c.deltas) 7) [
    | yes s ↦ flush_last k c v s
    | no l ↦
        let r = encode-Encoded c v (omega arith) in
        flush-Encoded c.deltas (encode c) (flush k (encode c).1) r
          (flush-Flushed k (encode c).1 r.valid (let s = r.short in omega arith))
  ])
]
