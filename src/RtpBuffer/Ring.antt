-- ===== src/RtpBuffer/Ring.antt =====
-- The places of the ring, and the numbers of the packets, which no step changes.
use interceptor.Common.{
  ℕ, zero, suc, ◌+◌, ◌%◌, ◌≤◌, ◌<◌, ◌≡◌, ◌≢◌, refl, ◌∙◌, true, Option, none, some, List, ltb, arith,
  ◌==◌, if◌then◌else◌, length, sub16, add16, length-set, get_or-set_self, get_or-set_ne,
  get_or-set_kept, Bool-cases, inl, inr,
}
use interceptor.Common.Int.{pos, ◌-ℤ◌, eqb_ℤ}
use interceptor.Common.Range.{for_range, rounds, is_power, is_power-mod_ne}
use interceptor.RtpBuffer.{
  RetainablePacket, RtpBuffer, packet_at, release, release_opt, slot, replace, clear_skipped,
}

pub record IsRing (r : RtpBuffer) : Type 0 where
  pub size_allowed : is_power 16 0 r.size ≡ true
  pub size_positive : 0 < r.size
  pub size_small : r.size ≤ 32768
  pub storage : length r.packets ≡ r.size

-- `j` is one of the `size` numbers that end at `e`.
abbrev pub Within : RtpBuffer → ℕ → ℕ → Type 0
Within r e j = (j < 65536) × (sub16 e j < r.size)

number-release :
    (store : List RetainablePacket) (i k : ℕ)
    → (packet_at (release store i) k).sequence_number ≡ (packet_at store k).sequence_number
unfolding release
number-release store i k = elim (Bool-cases (eqb_ℤ ((packet_at store i).count -ℤ pos 1) (pos 0))) [
  | inl e ↦ rw (e, release) (get_or-set_kept (λ p. p.sequence_number) store i k _ _ refl)
  | inr e ↦ rw (e, release) (get_or-set_kept (λ p. p.sequence_number) store i k _ _ refl)
]

number-release_opt :
    (store : List RetainablePacket) (o : Option ℕ) (k : ℕ)
    → (packet_at (release_opt store o) k).sequence_number ≡ (packet_at store k).sequence_number
number-release_opt store none k = refl
number-release_opt store (some i) k = number-release store i k

-- What a step leaves as it was.
pub record SameNumbers (r s : RtpBuffer) : Type 0 where
  pub size : s.size ≡ r.size
  pub highest : s.highest_added ≡ r.highest_added
  pub started : s.started ≡ r.started
  pub storage : length s.packets ≡ length r.packets
  pub number :
      (k : ℕ) → (packet_at s.store k).sequence_number ≡ (packet_at r.store k).sequence_number

pub replace-SameNumbers : (r : RtpBuffer) (i : ℕ) (p : Option ℕ) → SameNumbers r (replace r i p)
unfolding replace
replace-SameNumbers r i p = record {
  size = refl;
  highest = refl;
  started = refl;
  storage = length-set r.packets (i % r.size) p;
  number = λ k. number-release_opt r.store (slot r i) k;
}

pub slot-replace_mod :
    (r : RtpBuffer) (i j : ℕ) (p : Option ℕ)
    → IsRing r
    → slot (replace r i p) j ≡ (if i % r.size == j % r.size then p else slot r j)
unfolding slot replace
slot-replace_mod r i j p v = ground (
  arith,
  v.storage,
  get_or-set_self r.packets (i % r.size) p none,
  get_or-set_ne r.packets (i % r.size) (j % r.size) p none,
)

pub slot-replace :
    (r : RtpBuffer) (e i j : ℕ) (p : Option ℕ)
    → IsRing r
    → e < 65536
    → Within r e i
    → Within r e j
    → slot (replace r i p) j ≡ (if i == j then p else slot r j)
slot-replace r e i j p v he wi wj =
    ground (arith, slot-replace_mod r i j p v, is_power-mod_ne r.size i j e v.size_allowed)

pub IsRing-SameNumbers : (r s : RtpBuffer) → SameNumbers r s → IsRing r → IsRing s
IsRing-SameNumbers r s e v = ground (arith, e.size, e.storage)

abbrev skip : ℕ → RtpBuffer → RtpBuffer
skip i s = replace s i none

rounds-SameNumbers : (k i : ℕ) (r : RtpBuffer) → SameNumbers r (rounds skip k i r)
unfolding rounds
rounds-SameNumbers zero i r = record {
  size = refl;
  highest = refl;
  started = refl;
  storage = refl;
  number = λ k. refl;
}
rounds-SameNumbers (suc k) i r =
    let a = replace-SameNumbers r i none in
    let b = rounds-SameNumbers k (add16 i 1) (replace r i none) in
    record {
      size = b.size ∙ a.size;
      highest = b.highest ∙ a.highest;
      started = b.started ∙ a.started;
      storage = b.storage ∙ a.storage;
      number = λ n. b.number n ∙ a.number n;
    }

rounds-slot :
    (k i e j : ℕ) (r : RtpBuffer)
    → IsRing r
    → i < 65536
    → e < 65536
    → k < 32768
    → (i + k) % 65536 ≡ e
    → Within r e j
    → j ≢ e
    → slot (rounds skip k i r) j ≡ (if ltb (sub16 j i) k then none else slot r j)
unfolding rounds
rounds-slot zero i e j r v hi he hk eq wj ne = ground arith
rounds-slot (suc k) i e j r v hi he hk eq wj ne =
    let s = replace-SameNumbers r i none in
    ground (
      arith,
      rounds-slot k (add16 i 1) e j (replace r i none)
          (IsRing-SameNumbers r (replace r i none) s v),
      s.size,
      slot-replace r e i j none v,
    )

pub clear_skipped-SameNumbers : (r : RtpBuffer) (seq : ℕ) → SameNumbers r (clear_skipped r seq)
unfolding clear_skipped for_range
clear_skipped-SameNumbers r seq =
    rounds-SameNumbers (sub16 seq (add16 r.highest_added 1)) (add16 r.highest_added 1) r

-- Going from the highest number up to `seq`, less than half the range ahead.
pub clear_skipped-slot :
    (r : RtpBuffer) (seq j : ℕ)
    → IsRing r
    → r.highest_added < 65536
    → seq < 65536
    → 0 < sub16 seq r.highest_added
    → sub16 seq r.highest_added < 32768
    → Within r seq j
    → j ≢ seq
    → slot (clear_skipped r seq) j
      ≡ (if ltb (sub16 seq j) (sub16 seq r.highest_added) then none else slot r j)
unfolding clear_skipped for_range
clear_skipped-slot r seq j v he hs p q wj ne =
    ground
      (arith, rounds-slot (sub16 seq (add16 r.highest_added 1)) (add16 r.highest_added 1) seq j r v)
