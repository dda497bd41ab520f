-- ===== src/SequenceNumber.antt =====
-- internal/sequencenumber/unwrapper.go: 16-bit RTP sequence numbers to growing int64 numbers.
pub mod Nearest
pub mod Track
mod Tests
use interceptor.Common.{
  ℕ, ◌<◌, Bool, true, false, not, ◌&&◌, List, [], ◌∷◌, ltb, ◌==◌, if◌then◌else◌, sub16,
}
use interceptor.Common.Int.{ℤ, pos, ◌+ℤ◌, ◌-ℤ◌, ltb_ℤ, leb_ℤ, emod}

abbrev pub max_sequence_number_plus_one : ℤ
max_sequence_number_plus_one = pos 65536

-- half of max uint16
abbrev pub breakpoint : ℕ
breakpoint = 32768

pub record Unwrapper : Type 0 where
  pub init : Bool
  pub last_unwrapped : ℤ

-- the zero value `Unwrapper{}`
abbrev pub new : Unwrapper
new = record { init = false; last_unwrapped = pos 0 }

unfoldable pub is_newer : ℕ → ℕ → Bool
is_newer value previous =
    if sub16 value previous == breakpoint
    then ltb previous value
    else not (value == previous) && ltb (sub16 value previous) breakpoint

-- the correction of `delta`; its first inner branch is never taken, as a uint16 is not negative
unfoldable pub adjust : ℤ → ℕ → ℕ → ℤ → ℤ
unfolding is_newer ◌+ℤ◌ ◌-ℤ◌
adjust last i last_wrapped delta =
    if is_newer i last_wrapped
    then (if ltb_ℤ delta (pos 0) then delta +ℤ max_sequence_number_plus_one else delta)
    else if ltb_ℤ (pos 0) delta && leb_ℤ (pos 0) (last +ℤ delta -ℤ max_sequence_number_plus_one)
    then delta -ℤ max_sequence_number_plus_one
    else delta

-- `Unwrap`: the unwrapped number and the new state
unfoldable pub unwrap : Unwrapper → ℕ → ℤ × Unwrapper
unfolding adjust
unwrap u i =
    if u.init
    then (let last_wrapped = emod u.last_unwrapped 65536 in
        let delta = adjust u.last_unwrapped i last_wrapped (pos (sub16 i last_wrapped)) in
        let next = u.last_unwrapped +ℤ delta in (next, record u { last_unwrapped = next }))
    else (pos i, record { init = true; last_unwrapped = pos i })

-- the numbers that a run of calls returns
unfoldable pub unwrap_all : Unwrapper → List ℕ → List ℤ
unwrap_all u [] = []
unwrap_all u (i ∷ is) = let (n, u') = unwrap u i in n ∷ unwrap_all u' is
