-- ===== src/Twcc/Chunk/Valid.antt =====
-- The chunk that is being filled: its flags are exact, and it never holds more than some chunk of
-- the wire can carry, so that nothing is lost when it is written out.
use mathlib.Core.List.{append-nil}
use interceptor.Common.{
  ℕ, zero, suc, ◌+◌, ◌%◌, ◌≤◌, ◌<◌, ◌≡◌, ◌≢◌, refl, sym, ap, ◌∙◌, true, false, ◌||◌, not, List, [],
  ◌∷◌, ◌++◌, arith, length, length-append, take, drop, replicate,
}
use interceptor.Twcc.Chunk.{
  Symbol, same, StatusChunk, run_length, one_bit, two_bit, any_other, any_large, Chunk, empty,
  first, can_add, add, remainder, encode,
}
use interceptor.Twcc.Chunk.Wire.{
  pad, pad-full, read, Fits, same_comm, any_other-replicate, any_other-append, any_large-append,
  take-drop,
}

pub record IsValid (c : Chunk) : Type 0 where
  pub large : c.has_large_delta ≡ any_large c.deltas
  pub different : c.has_different_types ≡ any_other (first c.deltas) c.deltas
  pub one : c.has_different_types ≡ true → length c.deltas ≤ 14
  pub two : c.has_different_types ≡ true → c.has_large_delta ≡ true → length c.deltas ≤ 7
  pub run : length c.deltas < 8192

pub empty-IsValid : IsValid empty
empty-IsValid = record {
  large = refl;
  different = refl;
  one = λ _. omega arith;
  two = λ _ _. omega arith;
  run = omega arith;
}

first-append :
    (d : Symbol) (ds : List Symbol)
    → any_other (first (ds ++ (d ∷ []))) (ds ++ (d ∷ []))
      ≡ (any_other (first ds) ds || not (same d (first (ds ++ (d ∷ [])))))
first-append d [] = ground (arith, same_comm d d)
first-append d (x ∷ ds) = ground (arith, any_other-append x d ds, same_comm x d)

first-append_kept :
    (d : Symbol) (ds : List Symbol) → 0 < length ds → first (ds ++ (d ∷ [])) ≡ first ds
first-append_kept d [] h = absurd (omega arith)
first-append_kept d (x ∷ ds) h = refl

pub add-IsValid : (c : Chunk) (d : Symbol) → IsValid c → can_add c d ≡ true → IsValid (add c d)
unfolding can_add add
add-IsValid c d v h = record {
  large = ground (arith, v.large, any_large-append d c.deltas);
  different = ground (arith, v.different, first-append d c.deltas);
  one = ground (arith, v.one, length-append c.deltas (d ∷ []), first-append_kept d c.deltas);
  two = ground (arith, v.one, v.two, length-append c.deltas (d ∷ []), first-append_kept d c.deltas);
  run = ground (arith, v.run, length-append c.deltas (d ∷ []));
}

-- What is written out, as it is read, and what stays are together what was in the chunk.
pub record Encoded (ds : List Symbol) (r : StatusChunk × Chunk) : Type 0 where
  pub kept : read r.0 ++ r.1.deltas ≡ ds
  pub fits : Fits r.0
  pub valid : IsValid r.1
  pub short : length r.1.deltas < 7

pub remainder-IsValid : (ds : List Symbol) → length ds < 7 → IsValid (remainder ds)
unfolding remainder
remainder-IsValid ds h = record {
  large = refl;
  different = refl;
  one = λ _. omega arith;
  two = λ _ _. omega arith;
  run = omega arith;
}

length-drop : (n : ℕ) (ds : List Symbol) → length (take n ds) + length (drop n ds) ≡ length ds
length-drop n ds = omega (arith, length-append (take n ds) (drop n ds), ap length (take-drop n ds))

length-take_le : (n : ℕ) (ds : List Symbol) → length (take n ds) ≤ n
length-take_le zero ds = omega arith
length-take_le (suc n) [] = omega arith
length-take_le (suc n) (d ∷ ds) = omega (arith, length-take_le n ds)

length-take_full : (n : ℕ) (ds : List Symbol) → n ≤ length ds → length (take n ds) ≡ n
length-take_full zero ds h = refl
length-take_full (suc n) [] h = absurd (omega arith)
length-take_full (suc n) (d ∷ ds) h = ap suc (length-take_full n ds (omega arith))

pub encode_run :
    (c : Chunk)
    → IsValid c
    → c.has_different_types ≡ false
    → Encoded c.deltas (run_length (first c.deltas) (length c.deltas % 65536), empty)
encode_run c v d =
    let n : length c.deltas % 65536 ≡ length c.deltas = omega (arith, v.run) in
    rw n (record {
      kept =
          append-nil (replicate (length c.deltas) (first c.deltas))
          ∙ any_other-replicate (first c.deltas) c.deltas (sym v.different ∙ d);
      fits = v.run;
      valid = empty-IsValid;
      short = omega arith;
    })

pub encode_one :
    (c : Chunk)
    → IsValid c
    → c.has_different_types ≡ true
    → length c.deltas ≡ 14
    → Encoded c.deltas (one_bit c.deltas, empty)
encode_one c v d e = record {
  kept = append-nil (pad 14 c.deltas) ∙ pad-full 14 c.deltas e;
  fits = ground (arith, v.two, v.large);
  valid = empty-IsValid;
  short = omega arith;
}

pub encode_two :
    (c : Chunk)
    → IsValid c
    → c.has_different_types ≡ true
    → length c.deltas ≢ 14
    → 7 ≤ length c.deltas
    → Encoded c.deltas (two_bit (take 7 c.deltas), remainder (drop 7 c.deltas))
unfolding remainder
encode_two c v d e h = record {
  kept =
      ap (λ (t : List Symbol). t ++ drop 7 c.deltas)
        (pad-full 7 (take 7 c.deltas) (length-take_full 7 c.deltas h))
      ∙ take-drop 7 c.deltas;
  fits = length-take_le 7 c.deltas;
  valid = remainder-IsValid (drop 7 c.deltas) short;
  short = short;
}
  where
    short : length (drop 7 c.deltas) < 7
    short = ground (arith, v.one, length-drop 7 c.deltas, length-take_full 7 c.deltas)

pub encode-Encoded : (c : Chunk) → IsValid c → 7 ≤ length c.deltas → Encoded c.deltas (encode c)
unfolding encode
encode-Encoded c v h = ground (arith, encode_run c v, encode_one c v, encode_two c v)
