-- ===== src/RtpBuffer/Tests.antt =====
-- A ring of four packets.
use interceptor.Common.{
  ℕ, zero, suc, ◌<◌, ap, ◌≡◌, ◌≢◌, refl, none, some, [], ◌∷◌, arith, true, inl, ◌==◌, if◌then◌else◌,
}
use interceptor.Common.Int.{pos}
use interceptor.Common.Range.{is_power}
use interceptor.RtpBuffer.{
  RetainablePacket, RtpBuffer, packet_at, lookup, add, replace, get, release, retain, slot, checked,
}
use interceptor.RtpBuffer.Effect.{IsValid, lookup-add_stale}
use interceptor.RtpBuffer.Accounts.{Accounts, holders, places}
use interceptor.RtpBuffer.Held.{Held}
use interceptor.RtpBuffer.Counts.{
  returned, more, less, got, given_back, done, next, Steps, get-release, returned-add,
}

abbrev packet : ℕ → RetainablePacket
packet n = record { count = pos 1; content = some (1 ∷ []); sequence_number = n }

-- 11 is in its place; 14 and 2 are about to be added
abbrev buffer : RtpBuffer
buffer = record {
  packets = none ∷ none ∷ none ∷ some 0 ∷ [];
  size = 4;
  highest_added = 11;
  started = true;
  store = packet 11 ∷ packet 14 ∷ packet 3 ∷ [];
}

buffer-IsValid : IsValid buffer
unfolding is_power
buffer-IsValid = record {
  ring = record {
    size_allowed = refl;
    size_positive = omega arith;
    size_small = omega arith;
    storage = refl;
  };
  highest_16 = omega arith;
}

-- 14 and 3 are held by those who are about to add them
abbrev outside : ℕ → ℕ
outside zero = 0
outside (suc zero) = 1
outside (suc (suc zero)) = 1
outside (suc (suc (suc i))) = 0

buffer-Held : Held buffer.store (holders buffer outside)
unfolding places
buffer-Held = record { counts = counts; contents = contents }
  where
    counts : (i : ℕ) → (packet_at buffer.store i).count ≡ pos (holders buffer outside i)
    counts zero = refl
    counts (suc zero) = refl
    counts (suc (suc zero)) = refl
    counts (suc (suc (suc i))) = ap pos (ground arith)

    contents : (i : ℕ) → 0 < holders buffer outside i → (packet_at buffer.store i).content ≢ none
    contents zero h = λ e. absurd (ground arith)
    contents (suc zero) h = λ e. absurd (ground arith)
    contents (suc (suc zero)) h = λ e. absurd (ground arith)
    contents (suc (suc (suc i))) h = absurd (ground arith)

buffer-Accounts : Accounts buffer outside
buffer-Accounts = record {
  ring = buffer-IsValid.ring;
  held = buffer-Held;
  fresh = λ e. absurd (ground arith);
}

returned-add_example :
    returned (add buffer 1) 11 ≡ (if 14 == 11 then some 1 else returned buffer 11)
returned-add_example =
    returned-add buffer outside 1 11 buffer-IsValid buffer-Accounts (omega arith) refl (omega arith)
      (λ e. absurd (omega (arith, e))) (inl (omega arith)) (omega arith)
      (unfold add replace in omega arith)

lookup-add_stale_example : (◌≢◌ {A = ℕ} 11 3) × (lookup (add buffer 2) 11 ≡ none)
lookup-add_stale_example =
    lookup-add_stale buffer 2 11 buffer-IsValid refl (omega arith) (omega arith) (omega arith)
      (omega arith) (omega arith) refl

-- 11 is got and released
abbrev got_back : RtpBuffer
got_back = record (get buffer 11).1 { store = release (get buffer 11).1.store 0 }

got_and_released : Steps buffer outside got_back (less (more outside 0) 0)
got_and_released =
    next (next done (got 11 0 (unfold get retain lookup checked slot in refl)))
      (given_back 0 (omega arith))

get-release_example :
    ((packet_at got_back.store 0).count ≡ pos (holders got_back (less (more outside 0) 0) 0))
    × ((packet_at got_back.store 0).content ≢ none)
    × (returned got_back 11 ≡ lookup got_back 11)
get-release_example =
    get-release buffer got_back outside (less (more outside 0) 0) 11 0 buffer-Accounts
      got_and_released (unfold get retain lookup checked slot places in omega arith)
