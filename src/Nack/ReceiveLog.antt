-- ===== src/Nack/ReceiveLog.antt =====
-- pkg/nack/receive_log.go: which of the last `size` sequence numbers have arrived. A sequence number
-- is a uint16, so below 65536; the mutex is left out, each method being one step.
pub mod Ring
pub mod Add
pub mod Missing
mod Tests
use interceptor.Common.{
  ℕ, zero, suc, ◌+◌, ◌/◌, ◌%◌, Bool, true, false, not, Option, none, some, List, [], ◌∷◌, ltb, leb,
  ◌==◌, if◌then◌else◌, replicate, sub16, add16, uint16_size_half,
}
use interceptor.Common.Bits.{set_pos, clear_pos, test_pos}
use interceptor.Common.Range.{for_range, is_power}

pub record ReceiveLog : Type 0 where
  pub packets : List ℕ
  pub size : ℕ
  pub end : ℕ
  pub started : Bool
  pub last_consecutive : ℕ

-- `newReceiveLog`; `none` is ErrInvalidSize
unfoldable pub new : ℕ → Option ReceiveLog
unfolding is_power
new size =
    if is_power 10 6 size
    then some (record {
      packets = replicate (size / 64) 0;
      size = size;
      end = 0;
      started = false;
      last_consecutive = 0;
    })
    else none

unfoldable pub set_received : ReceiveLog → ℕ → ReceiveLog
set_received s seq = record s { packets = set_pos s.packets (seq % s.size) }

unfoldable pub del_received : ReceiveLog → ℕ → ReceiveLog
del_received s seq = record s { packets = clear_pos s.packets (seq % s.size) }

unfoldable pub get_received : ReceiveLog → ℕ → Bool
get_received s seq = test_pos s.packets (seq % s.size)

-- `for ; i != stop && received i; i++`, of `k` rounds at most: where it stops
pub first_unreceived : ReceiveLog → ℕ → ℕ → ℕ
first_unreceived s zero i = i
first_unreceived s (suc k) i =
    let rest = first_unreceived s k (add16 i 1) in if get_received s i then rest else i

unfoldable pub fix_last_consecutive : ReceiveLog → ReceiveLog
unfolding first_unreceived
fix_last_consecutive s =
    let start = add16 s.last_consecutive 1 in
    let i = first_unreceived s (sub16 (add16 s.end 1) start) start in
    record s { last_consecutive = sub16 i 1 }

-- the loop that forgets the numbers between `end` and `seq`
unfoldable pub clear_between : ReceiveLog → ℕ → ReceiveLog
clear_between s seq = for_range (λ i t. del_received t i) (add16 s.end 1) seq s

-- the branch `diff < 1 << 15` of `add`
unfoldable pub advance : ReceiveLog → ℕ → ReceiveLog
advance s seq =
    let t = record (clear_between s seq) { end = seq } in
    if add16 t.last_consecutive 1 == seq
    then record t { last_consecutive = seq }
    else if ltb t.size (sub16 seq t.last_consecutive)
    then fix_last_consecutive (record t { last_consecutive = sub16 seq t.size })
    else t

unfoldable pub add : ReceiveLog → ℕ → ReceiveLog
add s seq =
    if not s.started
    then record (set_received s seq) { end = seq; started = true; last_consecutive = seq }
    else (let diff = sub16 seq s.end in
        if diff == 0
        then s
        else if ltb diff uint16_size_half
        then set_received (advance s seq) seq
        else if add16 s.last_consecutive 1 == seq
        then set_received (fix_last_consecutive (record s { last_consecutive = seq })) seq
        else set_received s seq)

unfoldable pub get : ReceiveLog → ℕ → Bool
unfolding get_received
get s seq =
    let diff = sub16 s.end seq in
    if leb uint16_size_half diff
    then false
    else if leb s.size diff
    then false
    else get_received s seq

abbrev pub cons_opt : ℕ → Option (List ℕ) → Option (List ℕ)
cons_opt i none = none
cons_opt i (some is) = some (i ∷ is)

-- The loop of `missingSeqNumbers` with `k` rounds left, at `i`, with `c` numbers found, over a slice
-- of `cap` places; `none` is a write past the end of the slice, which panics.
pub missing_from : ReceiveLog → ℕ → ℕ → ℕ → ℕ → Option (List ℕ)
missing_from s cap zero i c = some []
missing_from s cap (suc k) i c = elim (get_received s i) [
  | true ↦ missing_from s cap k (add16 i 1) c
  | false ↦ elim (ltb c cap) [
    | true ↦ cons_opt i (missing_from s cap k (add16 i 1) (c + 1))
    | false ↦ none
  ]
]

-- `missingSeqNumbers`, over the caller's slice of `cap` places
unfoldable pub missing_seq_numbers : ReceiveLog → ℕ → ℕ → Option (List ℕ)
unfolding missing_from
missing_seq_numbers s skip_last_n cap =
    let until = sub16 s.end skip_last_n in
    if leb uint16_size_half (sub16 until s.last_consecutive)
    then some []
    else (let start = add16 s.last_consecutive 1 in
        missing_from s cap (sub16 (add16 until 1) start) start 0)
