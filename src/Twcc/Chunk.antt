-- ===== src/Twcc/Chunk.antt =====
-- pkg/twcc/twcc.go, chunk: the statuses that wait to be written out as one packet status chunk.
pub mod Wire
pub mod Valid
pub mod Flush
use interceptor.Common.{
  ℕ, zero, suc, ◌%◌, Bool, true, false, not, ◌&&◌, ◌||◌, Option, none, some, List, [], ◌∷◌, ◌++◌,
  ltb, ◌==◌, if◌then◌else◌, length, get_or, take, drop,
}

-- the three statuses of a packet, constants of the RTCP library
pub data Symbol : Type 0 where
  not_received : Symbol
  small_delta : Symbol
  large_delta : Symbol

abbrev pub is_large : Symbol → Bool
is_large not_received = false
is_large small_delta = false
is_large large_delta = true

-- `==` on statuses
abbrev pub same : Symbol → Symbol → Bool
same not_received not_received = true
same small_delta small_delta = true
same large_delta large_delta = true
same _ _ = false

-- a RunLengthChunk, and a StatusVectorChunk of either symbol size
pub data StatusChunk : Type 0 where
  run_length : Symbol → ℕ → StatusChunk
  one_bit : List Symbol → StatusChunk
  two_bit : List Symbol → StatusChunk

abbrev pub max_run_length_cap : ℕ
max_run_length_cap = 8191

abbrev pub max_one_bit_cap : ℕ
max_one_bit_cap = 14

abbrev pub max_two_bit_cap : ℕ
max_two_bit_cap = 7

pub record Chunk : Type 0 where
  pub has_large_delta : Bool
  pub has_different_types : Bool
  pub deltas : List Symbol

-- the zero value, and what `reset` leaves
abbrev pub empty : Chunk
empty = record { has_large_delta = false; has_different_types = false; deltas = [] }

-- `c.deltas[0]`, which is read of a chunk that is not empty
abbrev pub first : List Symbol → Symbol
first ds = get_or ds 0 not_received

unfoldable pub can_add : Chunk → Symbol → Bool
can_add c delta =
    if ltb (length c.deltas) max_two_bit_cap
    then true
    else if ltb (length c.deltas) max_one_bit_cap && (not c.has_large_delta && not (is_large delta))
    then true
    else ltb (length c.deltas) max_run_length_cap
      && (not c.has_different_types && same delta (first c.deltas))

unfoldable pub add : Chunk → Symbol → Chunk
add c delta =
    let ds = c.deltas ++ (delta ∷ []) in
    record {
      deltas = ds;
      has_large_delta = c.has_large_delta || is_large delta;
      has_different_types = c.has_different_types || not (same delta (first ds));
    }

-- the loop that looks for a status other than `tmp`, and the one for a large delta
abbrev pub any_other : Symbol → List Symbol → Bool
any_other tmp [] = false
any_other tmp (d ∷ ds) = not (same tmp d) || any_other tmp ds

abbrev pub any_large : List Symbol → Bool
any_large [] = false
any_large (d ∷ ds) = is_large d || any_large ds

-- what stays in the chunk when a two bit vector has been taken
unfoldable pub remainder : List Symbol → Chunk
remainder ds = record {
  deltas = ds;
  has_large_delta = any_large ds;
  has_different_types = any_other (first ds) ds;
}

-- `encode`: the chunk for the wire, and what is left
unfoldable pub encode : Chunk → StatusChunk × Chunk
unfolding remainder
encode c =
    if not c.has_different_types
    then (run_length (first c.deltas) (length c.deltas % 65536), empty)
    else if length c.deltas == max_one_bit_cap
    then (one_bit c.deltas, empty)
    else (two_bit (take max_two_bit_cap c.deltas), remainder (drop max_two_bit_cap c.deltas))

-- a status is added; when it does not fit, the chunk is written out before
unfoldable pub put : Chunk → Symbol → List StatusChunk × Chunk
put c delta =
    if can_add c delta
    then ([], add c delta)
    else (let (s, rest) = encode c in (s ∷ [], add rest delta))

abbrev pub cons_chunk : StatusChunk → Option (List StatusChunk) → Option (List StatusChunk)
cons_chunk s none = none
cons_chunk s (some ss) = some (s ∷ ss)

-- `for len(c.deltas) > 0 { c.encode() }`; `none` if `k` rounds do not end it
pub flush : ℕ → Chunk → Option (List StatusChunk)
flush zero c = if ltb 0 (length c.deltas) then none else some []
flush (suc k) c = elim (ltb 0 (length c.deltas)) [
  | true ↦ cons_chunk (encode c).0 (flush k (encode c).1)
  | false ↦ some []
]
