-- ===== src/Rfc8888/StreamLog/Told.antt =====
-- What a report says of each number, apart from how the code finds it.
use Prim.Native.Nat.{min}
use native.Mathlib.Nat.{min-eq_left, min-eq_right}
use interceptor.Common.{
  ℕ, zero, suc, ◌≤◌, ◌≡◌, refl, ap, ap₂, none, true, List, [], ◌∷◌, ◌∙◌, false, ◌&&◌, Option, some,
  if◌then◌else◌, arith,
}
use interceptor.Common.Int.{ℤ, pos, ◌+ℤ◌, leb_ℤ, ltb_ℤ}
use interceptor.Rfc8888.StreamLog.{
  Clock, is_some, PacketReport, MetricBlock, StreamLog, lookup, metric, get_arrival_time_offset,
}
use interceptor.Rfc8888.StreamLog.Reported.{expected, leading, Delivered}

-- What a report says by itself: whether a packet has come, its mark, and how old it is, at most 8190
-- units, or 8191 when it came after the time of the report.
module _ {T : Type 0} (c : Clock T) (reference : T) where
  abbrev pub told : Option (PacketReport T) → MetricBlock
  told none = record { received = false; ecn = 0; arrival_time_offset = 0 }
  told (some r) = record {
    received = true;
    ecn = r.ecn;
    arrival_time_offset =
        if c.before reference r.arrival_time
        then 8191
        else min (c.since reference r.arrival_time) 8190;
  }

  pub told_all : List (ℤ × PacketReport T) → ℕ → ℤ → List MetricBlock
  told_all log zero i = []
  told_all log (suc k) i = told (lookup log i) ∷ told_all log k (i +ℤ pos 1)

  -- how many packets have come one after the other, of the `k` numbers from `i` on
  pub in_a_row : List (ℤ × PacketReport T) → ℕ → ℤ → ℕ
  in_a_row log zero i = 0
  in_a_row log (suc k) i = elim (lookup log i) [
    | none ↦ 0
    | some r ↦ suc (in_a_row log k (i +ℤ pos 1))
  ]

  age :
      (r : PacketReport T)
      → get_arrival_time_offset c reference r.arrival_time ≡ (
          if c.before reference r.arrival_time
          then 8191
          else min (c.since reference r.arrival_time) 8190)
  unfolding get_arrival_time_offset
  age r =
      let n = c.since reference r.arrival_time in
      ground (arith, λ (l : n ≤ 8190). min-eq_left l, λ (l : 8190 ≤ n). min-eq_right l)

  metric-told : (o : Option (PacketReport T)) → metric c reference o ≡ told o
  unfolding metric
  metric-told none = refl
  metric-told (some r) =
      ap (λ n. record { received = true; ecn = r.ecn; arrival_time_offset = n }) (age r)

  pub expected-told_all :
      (log : List (ℤ × PacketReport T)) (k : ℕ) (i : ℤ)
      → expected c reference log k i ≡ told_all log k i
  unfolding told_all
  expected-told_all log zero i = refl
  expected-told_all log (suc k) i =
      ap₂ (λ b bs. b ∷ bs) (metric-told (lookup log i)) (expected-told_all log k (i +ℤ pos 1))

  pub leading-in_a_row :
      (log : List (ℤ × PacketReport T)) (k : ℕ) (i : ℤ)
      → leading c reference log k i ≡ in_a_row log k i
  unfolding leading in_a_row
  leading-in_a_row log zero i = refl
  leading-in_a_row log (suc k) i = by_first (lookup log i) (leading-in_a_row log k (i +ℤ pos 1))
    where
      by_first :
          (o : Option (PacketReport T))
          → leading c reference log k (i +ℤ pos 1) ≡ in_a_row log k (i +ℤ pos 1)
          → (if is_some o then suc (leading c reference log k (i +ℤ pos 1)) else 0)
            ≡ elim o [ none ↦ 0 | some r ↦ suc (in_a_row log k (i +ℤ pos 1)) ]
      by_first none e = refl
      by_first (some r) e = ap suc e

  pub Delivered-log :
      (i : ℤ) (p : ℕ) (l m after : StreamLog T)
      → l.log ≡ m.log
      → l.last_sequence_number_received ≡ m.last_sequence_number_received
      → Delivered c reference i p l after
      → Delivered c reference i p m after
  Delivered-log i p l m after e f d = record {
    next = d.next;
    kept =
        λ n. d.kept n ∙ ap (λ g. if leb_ℤ i n && ltb_ℤ n (i +ℤ pos p) then none else lookup g n) e;
    last = d.last ∙ f;
  }
