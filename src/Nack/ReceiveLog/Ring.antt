-- ===== src/Nack/ReceiveLog/Ring.antt =====
-- The bits of the log: writing, reading, and the loop that forgets skipped numbers.
use interceptor.Common.{
  ℕ, zero, suc, ◌+◌, ◌*◌, ◌%◌, ◌≤◌, ◌<◌, ◌≡◌, ◌≢◌, refl, true, false, ltb, arith, ◌==◌,
  if◌then◌else◌, length, sub16, add16,
}
use interceptor.Common.Bits.{length-set_pos, length-clear_pos, test_pos-set_pos, test_pos-clear_pos}
use interceptor.Common.Range.{for_range, rounds, is_power, is_power-mod_ne}
use interceptor.Nack.ReceiveLog.{
  ReceiveLog, set_received, del_received, get_received, clear_between,
}

-- The ring: a size that `newReceiveLog` accepts, and a bit for each position.
pub record IsRing (s : ReceiveLog) : Type 0 where
  pub size_allowed : is_power 16 0 s.size ≡ true
  pub size_small : s.size ≤ 32768
  pub size_positive : 0 < s.size
  pub storage : s.size ≤ 64 * length s.packets

-- `j` is one of the `size` numbers that end at `e`.
abbrev pub Within : ReceiveLog → ℕ → ℕ → Type 0
Within s e j = (j < 65536) × (sub16 e j < s.size)

-- A write at one number, read at any other: they share a bit if they agree modulo the size.
pub get_received-set_received_mod :
    (s : ReceiveLog) (i j : ℕ)
    → IsRing s
    → get_received (set_received s i) j
      ≡ (if i % s.size == j % s.size then true else get_received s j)
unfolding get_received set_received
get_received-set_received_mod s i j v =
    ground (arith, test_pos-set_pos s.packets (i % s.size) (j % s.size))

-- A write at one number of the window, read at another.
module _ (s : ReceiveLog) (e i j : ℕ) (v : IsRing s) (he : e < 65536) (wi : Within s e i)
    (wj : Within s e j) where
  pub get_received-set_received :
      get_received (set_received s i) j ≡ (if i == j then true else get_received s j)
  unfolding get_received set_received
  get_received-set_received = ground (
    arith,
    test_pos-set_pos s.packets (i % s.size) (j % s.size),
    is_power-mod_ne s.size i j e v.size_allowed,
  )

  get_received-del_received :
      get_received (del_received s i) j ≡ (if i == j then false else get_received s j)
  unfolding get_received del_received
  get_received-del_received = ground (
    arith,
    test_pos-clear_pos s.packets (i % s.size) (j % s.size),
    is_power-mod_ne s.size i j e v.size_allowed,
  )

pub del_received-IsRing : (s : ReceiveLog) (i : ℕ) → IsRing s → IsRing (del_received s i)
unfolding del_received
del_received-IsRing s i v = ground (arith, length-clear_pos s.packets (i % s.size))

pub set_received-IsRing : (s : ReceiveLog) (i : ℕ) → IsRing s → IsRing (set_received s i)
unfolding set_received
set_received-IsRing s i v = ground (arith, length-set_pos s.packets (i % s.size))

size-del_received : (s : ReceiveLog) (i : ℕ) → (del_received s i).size ≡ s.size
unfolding del_received
size-del_received s i = refl

-- What the loop of `add` leaves: the numbers it went over are forgotten, the others of the window
-- that ends where it stops are kept.
rounds-get_received :
    (k i e j : ℕ) (s : ReceiveLog)
    → IsRing s
    → i < 65536
    → e < 65536
    → k < 32768
    → (i + k) % 65536 ≡ e
    → Within s e j
    → j ≢ e
    → get_received (rounds (λ i t. del_received t i) k i s) j
      ≡ (if ltb (sub16 j i) k then false else get_received s j)
unfolding rounds
rounds-get_received zero i e j s v hi he hk eq wj ne = ground arith
rounds-get_received (suc k) i e j s v hi he hk eq wj ne = ground (
  arith,
  rounds-get_received k (add16 i 1) e j (del_received s i) (del_received-IsRing s i v),
  size-del_received s i,
  get_received-del_received s e i j v,
)

-- The loop writes to the bits alone.
pub record SameCounters (s t : ReceiveLog) : Type 0 where
  pub size : t.size ≡ s.size
  pub end : t.end ≡ s.end
  pub consecutive : t.last_consecutive ≡ s.last_consecutive
  pub started : t.started ≡ s.started

rounds-SameCounters :
    (k i : ℕ) (s : ReceiveLog) → SameCounters s (rounds (λ i t. del_received t i) k i s)
unfolding rounds del_received
rounds-SameCounters zero i s = ground arith
rounds-SameCounters (suc k) i s =
    ground (arith, rounds-SameCounters k (add16 i 1) (del_received s i))

rounds-IsRing :
    (k i : ℕ) (s : ReceiveLog) → IsRing s → IsRing (rounds (λ i t. del_received t i) k i s)
unfolding rounds
rounds-IsRing zero i s v = v
rounds-IsRing (suc k) i s v =
    rounds-IsRing k (add16 i 1) (del_received s i) (del_received-IsRing s i v)

pub clear_between-SameCounters : (s : ReceiveLog) (seq : ℕ) → SameCounters s (clear_between s seq)
unfolding clear_between for_range
clear_between-SameCounters s seq = rounds-SameCounters (sub16 seq (add16 s.end 1)) (add16 s.end 1) s

pub clear_between-IsRing : (s : ReceiveLog) (seq : ℕ) → IsRing s → IsRing (clear_between s seq)
unfolding clear_between for_range
clear_between-IsRing s seq v = rounds-IsRing (sub16 seq (add16 s.end 1)) (add16 s.end 1) s v

-- Going from `end` up to `seq`, less than half the range ahead.
pub clear_between-get_received :
    (s : ReceiveLog) (seq j : ℕ)
    → IsRing s
    → s.end < 65536
    → seq < 65536
    → 0 < sub16 seq s.end
    → sub16 seq s.end < 32768
    → Within s seq j
    → j ≢ seq
    → get_received (clear_between s seq) j
      ≡ (if ltb (sub16 seq j) (sub16 seq s.end) then false else get_received s j)
unfolding clear_between for_range
clear_between-get_received s seq j v he hs p q wj ne =
    ground (arith, rounds-get_received (sub16 seq (add16 s.end 1)) (add16 s.end 1) seq j s v)
