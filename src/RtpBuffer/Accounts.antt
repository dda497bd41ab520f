-- ===== src/RtpBuffer/Accounts.antt =====
-- The counts of the packets are those of their holders: the places of the buffer, and the ones outside
-- to whom a packet has been handed.
use interceptor.Common.{
  ℕ, zero, suc, ◌+◌, ◌%◌, ◌<◌, ◌≡◌, ◌∙◌, ◌&&◌, Bool, true, false, Option, some, none, List, [], ◌∷◌,
  arith, length, ltb, ◌==◌, if◌then◌else◌, get_or, set, if_elim, length-set, sub16, add16, not,
  uint16_size_half,
}
use interceptor.RtpBuffer.{RtpBuffer, packet_at, release_opt, slot, replace, clear_skipped, add}
use interceptor.RtpBuffer.Ring.{
  IsRing, replace-SameNumbers, IsRing-SameNumbers, clear_skipped-SameNumbers,
}
use interceptor.Common.Range.{for_range, rounds}
use native.Mathlib.Nat.{mod-lt}
use interceptor.RtpBuffer.Held.{Held, release-Held, Held-ext}

abbrev pub is_here : ℕ → Option ℕ → ℕ
is_here i none = 0
is_here i (some k) = if k == i then 1 else 0

-- in how many places a packet stands
unfoldable pub places : List (Option ℕ) → ℕ → ℕ
places [] i = 0
places (o ∷ os) i = is_here i o + places os i

places-set :
    (os : List (Option ℕ)) (k i : ℕ) (o : Option ℕ)
    → k < length os
    → places (set os k o) i + is_here i (get_or os k none) ≡ places os i + is_here i o
unfolding places
places-set [] k i o h = absurd (omega (arith, h))
places-set (q ∷ os) zero i o h = omega arith
places-set (q ∷ os) (suc k) i o h =
    let r = places-set os k i o (omega (arith, h)) in omega (arith, r)

-- the holders of each packet: the places of the buffer, and `out`
abbrev pub holders : RtpBuffer → (ℕ → ℕ) → ℕ → ℕ
holders r out i = places r.packets i + out i

-- A buffer whose packets have the counts of their holders, `out` being how many of them are outside.
pub record Accounts (r : RtpBuffer) (out : ℕ → ℕ) : Type 0 where
  pub ring : IsRing r
  pub held : Held r.store (holders r out)
  pub fresh : r.started ≡ false → (seq : ℕ) → slot r seq ≡ none

-- The holders after the place of a number has gone from one packet or nil to another.
module _ (r : RtpBuffer) (seq : ℕ) (o : Option ℕ) (out out' : ℕ → ℕ) (a : Accounts r out)
    (e : (k : ℕ) → out' k + is_here k o ≡ out k) where
  holders-set :
      (k : ℕ)
      → places (set r.packets (seq % r.size) o) k + out' k + is_here k (slot r seq)
        ≡ holders r out k
  unfolding slot
  holders-set k =
      let v = a.ring in
      omega (
        arith,
        e k,
        places-set r.packets (seq % r.size) k o
            (ground (arith, v.storage, v.size_positive, mod-lt seq v.size_positive)),
      )

  replace-Held : Held (replace r seq o).store (holders (replace r seq o) out')
  unfolding replace
  replace-Held = by_old (slot r seq) holders-set
    where
      by_old :
          (old : Option ℕ)
          → ((k : ℕ)
              → places (set r.packets (seq % r.size) o) k + out' k + is_here k old
                ≡ holders r out k)
          → Held (release_opt r.store old) (λ k. places (set r.packets (seq % r.size) o) k + out' k)
      by_old none f = Held-ext r.store (holders r out) _ a.held (λ k. omega (arith, f k))
      by_old (some i) f = release-Held r.store (holders r out) _ i a.held (ground (arith, f i)) f

  replace-Accounts : r.started ≡ true → Accounts (replace r seq o) out'
  replace-Accounts st =
      let s = replace-SameNumbers r seq o in
      record {
        ring = IsRing-SameNumbers r (replace r seq o) s a.ring;
        held = replace-Held;
        fresh = λ f. absurd (ground (arith, s.started));
      }

rounds-Accounts :
    (k i : ℕ) (r : RtpBuffer) (out : ℕ → ℕ)
    → r.started ≡ true
    → Accounts r out
    → Accounts (rounds (λ i s. replace s i none) k i r) out
unfolding rounds
rounds-Accounts zero i r out st a = a
rounds-Accounts (suc k) i r out st a =
    rounds-Accounts k (add16 i 1) (replace r i none) out
      ((replace-SameNumbers r i none).started ∙ st)
      (replace-Accounts r i none out out a (λ k. omega arith) st)

clear_skipped-Accounts :
    (r : RtpBuffer) (seq : ℕ) (out : ℕ → ℕ)
    → r.started ≡ true
    → Accounts r out
    → Accounts (clear_skipped r seq) out
unfolding clear_skipped for_range
clear_skipped-Accounts r seq out st a =
    rounds-Accounts (sub16 seq (add16 r.highest_added 1)) (add16 r.highest_added 1) r out st a

moved-Accounts :
    (r : RtpBuffer) (n : ℕ) (out : ℕ → ℕ)
    → Accounts r out
    → Accounts (record r { highest_added = n }) out
unfolding slot
moved-Accounts r n out a = record { ring = ground (arith, a.ring); held = a.held; fresh = a.fresh }

-- whether `Add` takes the packet, and does not return at once
abbrev pub takes : RtpBuffer → ℕ → Bool
takes r i = not (r.started && sub16 (packet_at r.store i).sequence_number r.highest_added == 0)

pub add-Accounts :
    (r : RtpBuffer) (i : ℕ) (out out' : ℕ → ℕ)
    → Accounts r out
    → ((k : ℕ) → out' k + (if takes r i then is_here k (some i) else 0) ≡ out k)
    → Accounts (add r i) out'
unfolding add
add-Accounts r i out out' a e =
    let seq = (packet_at r.store i).sequence_number in
    let P = λ (s : RtpBuffer). Accounts s out' in
    if_elim P (not r.started) _ _
      (λ f.
        let f' : r.started ≡ false = ground arith in
        record {
          ring = ground (arith, a.ring, length-set r.packets (seq % r.size) (some i));
          held = Held-ext r.store (holders r out) _ a.held (λ k. ground (
            arith,
            holders-set r seq (some i) out out' a (λ k. ground (arith, e k)) k,
            a.fresh f' seq,
          ));
          fresh = λ z. absurd (ground arith);
        })
      (λ f.
        let st : r.started ≡ true = ground arith in
        if_elim P (sub16 seq r.highest_added == 0) r _
          (λ g. record {
            ring = a.ring;
            held = Held-ext r.store (holders r out) _ a.held (λ k. ground (arith, e k));
            fresh = a.fresh;
          })
          (λ g.
            let e' : (k : ℕ) → out' k + is_here k (some i) ≡ out k = λ k. ground (arith, e k) in
            if_elim P (ltb (sub16 seq r.highest_added) uint16_size_half) _ _
              (λ h.
                let c = clear_skipped-Accounts r seq out st a in
                replace-Accounts (record (clear_skipped r seq) { highest_added = seq }) seq (some i)
                  out out' (moved-Accounts (clear_skipped r seq) seq out c) e'
                  ((clear_skipped-SameNumbers r seq).started ∙ st))
              (λ h. replace-Accounts r seq (some i) out out' a e' st)))
