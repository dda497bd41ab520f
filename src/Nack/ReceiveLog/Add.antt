-- ===== src/Nack/ReceiveLog/Add.antt =====
-- What `add` records.
use interceptor.Common.{
  ℕ, zero, suc, ◌/◌, ◌%◌, ◌≤◌, ◌<◌, ◌≡◌, ◌≢◌, ◌⊎◌, refl, true, some, arith, ◌==◌, if◌then◌else◌,
  sub16, add16, length-replicate, Bool-cases, inl, inr,
}
use interceptor.Common.Range.{is_power}
use interceptor.Nack.ReceiveLog.Ring.{
  IsRing, Within, get_received-set_received, get_received-set_received_mod, set_received-IsRing,
  clear_between-SameCounters, clear_between-IsRing, clear_between-get_received,
}
use interceptor.Nack.ReceiveLog.{
  ReceiveLog, new, set_received, get_received, first_unreceived, fix_last_consecutive,
  clear_between, advance, add, get,
}

pub record IsValid (s : ReceiveLog) : Type 0 where
  pub ring : IsRing s
  pub end_16 : s.end < 65536
  pub consecutive_16 : s.last_consecutive < 65536
  pub within : sub16 s.end s.last_consecutive ≤ s.size
  pub end_received : s.started ≡ true → get_received s s.end ≡ true

-- A log that `newReceiveLog` makes is valid.
pub new-IsValid : (size : ℕ) (s : ReceiveLog) → new size ≡ some s → IsValid s
unfolding new is_power
new-IsValid size s h = ground (arith, length-replicate {A = ℕ} (size / 64) 0)

first_unreceived-le :
    (s : ReceiveLog) (k i : ℕ)
    → i < 65536
    → k < 65536
    → (sub16 (first_unreceived s k i) i ≤ k) × (first_unreceived s k i < 65536)
unfolding first_unreceived
first_unreceived-le s zero i h hk = omega arith
first_unreceived-le s (suc k) i h hk = ground (arith, first_unreceived-le s k (add16 i 1))

get_received-fix :
    (s : ReceiveLog) (j : ℕ) → get_received (fix_last_consecutive s) j ≡ get_received s j
unfolding fix_last_consecutive get_received
get_received-fix s j = refl

advance-get_received :
    (s : ReceiveLog) (seq j : ℕ)
    → get_received (advance s seq) j ≡ get_received (clear_between s seq) j
unfolding advance get_received fix_last_consecutive
advance-get_received s seq j = ground arith

advance-fields :
    (s : ReceiveLog) (seq : ℕ) → ((advance s seq).end ≡ seq) × ((advance s seq).size ≡ s.size)
unfolding advance fix_last_consecutive
advance-fields s seq = ground (arith, clear_between-SameCounters s seq)

advance-IsRing : (s : ReceiveLog) (seq : ℕ) → IsRing s → IsRing (advance s seq)
unfolding advance fix_last_consecutive
advance-IsRing s seq v = ground (arith, clear_between-IsRing s seq v)

set_received-fields :
    (s : ReceiveLog) (seq : ℕ)
    → ((set_received s seq).end ≡ s.end)
      × ((set_received s seq).size ≡ s.size)
      × ((set_received s seq).last_consecutive ≡ s.last_consecutive)
unfolding set_received
set_received-fields s seq = (refl, refl, refl)

fix-fields :
    (s : ReceiveLog)
    → ((fix_last_consecutive s).end ≡ s.end) × ((fix_last_consecutive s).size ≡ s.size)
unfolding fix_last_consecutive
fix-fields s = (refl, refl)

-- The counters alone: the part of validity that holds between the steps of `add`.
record IsCounted (s : ReceiveLog) : Type 0 where
  ring : IsRing s
  end_16 : s.end < 65536
  consecutive_16 : s.last_consecutive < 65536
  within : sub16 s.end s.last_consecutive ≤ s.size

fix_last_consecutive-IsCounted : (s : ReceiveLog) → IsCounted s → IsCounted (fix_last_consecutive s)
unfolding fix_last_consecutive
fix_last_consecutive-IsCounted s v =
    let start = add16 s.last_consecutive 1 in
    ground (arith, first_unreceived-le s (sub16 (add16 s.end 1) start) start)

advance-IsCounted :
    (s : ReceiveLog) (seq : ℕ) → IsCounted s → seq < 65536 → IsCounted (advance s seq)
unfolding advance
advance-IsCounted s seq v h =
    let c = clear_between-SameCounters s seq in
    let r = clear_between-IsRing s seq v.ring in
    let t = record (clear_between s seq) { end = seq } in
    ground
      (arith, fix_last_consecutive-IsCounted (record t { last_consecutive = sub16 seq t.size }))

-- Setting a bit makes a counted log valid, if the bit is that of `end` or that was set before.
set_received-IsValid :
    (s : ReceiveLog) (seq : ℕ)
    → IsCounted s
    → (seq ≡ s.end) ⊎ (get_received s s.end ≡ true)
    → IsValid (set_received s seq)
set_received-IsValid s seq v c = ground (
  arith,
  set_received-IsRing s seq,
  set_received-fields s seq,
  get_received-set_received_mod s seq s.end,
)

abbrev first : ReceiveLog → ℕ → ReceiveLog
first s seq = record (set_received s seq) { end = seq; started = true; last_consecutive = seq }

first-IsValid : (s : ReceiveLog) (seq : ℕ) → IsCounted s → seq < 65536 → IsValid (first s seq)
unfolding get_received
first-IsValid s seq v h = ground (
  arith,
  set_received-IsRing s seq,
  set_received-fields s seq,
  get_received-set_received_mod s seq seq,
)

later-IsValid :
    (s : ReceiveLog) (seq : ℕ)
    → IsValid s
    → IsCounted s
    → s.started ≡ true
    → seq < 65536
    → IsValid (add s seq)
unfolding add
later-IsValid s seq v w st h = ground (
  arith,
  set_received-IsValid s seq,
  set_received-IsValid (advance s seq) seq (advance-IsCounted s seq w h),
  advance-fields s seq,
  fix-fields (record s { last_consecutive = seq }),
  fix_last_consecutive-IsCounted (record s { last_consecutive = seq }),
  get_received-fix (record s { last_consecutive = seq }) s.end,
  kept,
  set_received-IsValid (fix_last_consecutive (record s { last_consecutive = seq })) seq,
)
  where
    kept : get_received (record s { last_consecutive = seq }) s.end ≡ get_received s s.end
    kept = unfold get_received in refl

-- `add` of a 16-bit number keeps a log valid.
pub add-IsValid : (s : ReceiveLog) (seq : ℕ) → IsValid s → seq < 65536 → IsValid (add s seq)
unfolding add
add-IsValid s seq v h =
    let w : IsCounted s = ground arith in
    elim (Bool-cases s.started) [
      | inl e ↦ later-IsValid s seq v w e h
      | inr e ↦ simp e (first-IsValid s seq w h)
    ]

get-set_received :
    (s : ReceiveLog) (seq j : ℕ)
    → IsRing s
    → s.end < 65536
    → Within s s.end seq
    → Within s s.end j
    → get (set_received s seq) j ≡ (if seq == j then true else get s j)
unfolding get
get-set_received s seq j v he ws wj =
    ground (arith, set_received-fields s seq, get_received-set_received s s.end seq j v he)

get-fix : (s : ReceiveLog) (j : ℕ) → get (fix_last_consecutive s) j ≡ get s j
unfolding get fix_last_consecutive get_received
get-fix s j = refl

get-consecutive : (s : ReceiveLog) (n j : ℕ) → get (record s { last_consecutive = n }) j ≡ get s j
unfolding get get_received
get-consecutive s n j = refl

get-end : (s : ReceiveLog) → IsValid s → s.started ≡ true → get s s.end ≡ true
unfolding get
get-end s v st = ground arith

fix-IsRing : (s : ReceiveLog) → IsRing s → IsRing (fix_last_consecutive s)
unfolding fix_last_consecutive
fix-IsRing s v = ground arith

-- Moving `end` up forgets what lies between, and drops what leaves the window.
get-advance :
    (s : ReceiveLog) (seq j : ℕ)
    → IsValid s
    → seq < 65536
    → 0 < sub16 seq s.end
    → sub16 seq s.end < 32768
    → Within s seq j
    → j ≢ seq
    → get (advance s seq) j ≡ get s j
unfolding get
get-advance s seq j v hs p q wj ne = ground (
  arith,
  advance-fields s seq,
  advance-get_received s seq j,
  clear_between-get_received s seq j v.ring,
)

-- `add` of a number that is newer than `end`, or older but inside the window, has this effect on
-- `get`: the number itself is received, and of the others exactly those stay received that were so
-- and still lie among the last `size` numbers.
pub get-add :
    (s : ReceiveLog) (seq j : ℕ)
    → IsValid s
    → s.started ≡ true
    → seq < 65536
    → j < 65536
    → (sub16 seq s.end < 32768) ⊎ (sub16 s.end seq < s.size)
    → sub16 (add s seq).end j < s.size
    → get (add s seq) j ≡ (if seq == j then true else get s j)
unfolding add
get-add s seq j v st hs hj c w =
    let t = record s { last_consecutive = seq } in
    let r : IsRing t = ground arith in
    ground (
      arith,
      set_received-fields s seq,
      get-set_received s seq j v.ring,
      get-set_received (advance s seq) seq j (advance-IsRing s seq v.ring),
      advance-fields s seq,
      get-advance s seq j v,
      get-end s v st,
      get-fix t j,
      get-consecutive s seq j,
      fix-fields t,
      get-set_received (fix_last_consecutive t) seq j (fix-IsRing t r),
      set_received-fields (advance s seq) seq,
      set_received-fields (fix_last_consecutive t) seq,
    )

-- A number that is older than the window still sets a bit: the number of the window that shares its
-- position, which is another number, is then reported as received, whether it has arrived or not.
pub get-add_stale :
    (s : ReceiveLog) (seq j : ℕ)
    → IsValid s
    → s.started ≡ true
    → seq < 65536
    → 32768 ≤ sub16 seq s.end
    → s.size ≤ sub16 s.end seq
    → j < 65536
    → sub16 s.end j < s.size
    → j % s.size ≡ seq % s.size
    → (j ≢ seq) × (get (add s seq) j ≡ true)
unfolding add get
get-add_stale s seq j v st hs old c hj w e =
    let t = record s { last_consecutive = seq } in
    let r : IsRing t = ground arith in
    ground (
      arith,
      set_received-fields s seq,
      set_received-fields (fix_last_consecutive t) seq,
      fix-fields t,
      get_received-set_received_mod s seq j v.ring,
      get_received-set_received_mod (fix_last_consecutive t) seq j (fix-IsRing t r),
    )
