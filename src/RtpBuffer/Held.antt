-- ===== src/RtpBuffer/Held.antt =====
-- What `Retain` and `Release` make of the counts and the contents of packets.
use interceptor.Common.{
  ℕ, zero, suc, ◌+◌, ◌-◌, ◌<◌, ◌≡◌, ◌≢◌, refl, sym, ap, ◌∙◌, false, some, none, List, [], ◌∷◌,
  arith, length, ◌==◌, if◌then◌else◌, set, get_or-set_self, get_or-set_ne, Bool-cases, inl, inr,
  if_elim,
}
use interceptor.Common.Int.{ℤ, pos, ◌+ℤ◌, ◌-ℤ◌, eqb_ℤ}
use interceptor.RtpBuffer.{RetainablePacket, packet_at, retain, release}

-- A packet with a count is one that has been made.
made :
    (store : List RetainablePacket) (i m : ℕ)
    → (packet_at store i).count ≡ pos (suc m)
    → i < length store
made [] i m e = absurd (ground arith)
made (p ∷ store) zero m e = omega arith
made (p ∷ store) (suc i) m e = let h = made store i m e in omega (arith, h)

packet_at-set :
    (store : List RetainablePacket) (i k : ℕ) (v : RetainablePacket)
    → i < length store
    → packet_at (set store i v) k ≡ (if i == k then v else packet_at store k)
packet_at-set store i k v h =
    if_elim (λ (p : RetainablePacket). packet_at (set store i v) k ≡ p) (i == k) v
      (packet_at store k)
      (λ e.
        let same : i ≡ k = ground arith in
        ap (λ (z : ℕ). packet_at (set store i v) z) (sym same) ∙ get_or-set_self store i v _ h)
      (λ e. get_or-set_ne store i k v _ (ground arith))

-- a packet that one of its holders, beside `m` others, has released
abbrev released : RetainablePacket → ℕ → RetainablePacket
released p m = record p { count = pos m; content = if m == 0 then none else p.content }

one_less : (m : ℕ) → pos (suc m) -ℤ pos 1 ≡ pos m
unfolding ◌-ℤ◌
one_less m = ground arith

one_more : (m : ℕ) → pos m +ℤ pos 1 ≡ pos (suc m)
unfolding ◌+ℤ◌
one_more m = ground arith

release-released :
    (store : List RetainablePacket) (i m : ℕ)
    → (packet_at store i).count ≡ pos (suc m)
    → release store i ≡ set store i (released (packet_at store i) m)
unfolding release
release-released store i m e =
    let p = packet_at store i in
    ap
      (λ (z : ℤ).
        if eqb_ℤ z (pos 0)
        then set store i (record p { count = z; content = none })
        else set store i (record p { count = z }))
      (ap (λ (z : ℤ). z -ℤ pos 1) e ∙ one_less m)
    ∙ by_count m
  where
    by_count :
        (m : ℕ)
        → (if eqb_ℤ (pos m) (pos 0)
            then set store i (record (packet_at store i) { count = pos m; content = none })
            else set store i (record (packet_at store i) { count = pos m }))
          ≡ set store i (released (packet_at store i) m)
    by_count zero = refl
    by_count (suc m) =
        let a : eqb_ℤ (pos (suc m)) (pos 0) ≡ false = ground arith in
        let b : (suc m == 0) ≡ false = ground arith in rw (a, b) refl

packet_at-release :
    (store : List RetainablePacket) (i m k : ℕ)
    → (packet_at store i).count ≡ pos (suc m)
    → packet_at (release store i) k
      ≡ (if i == k then released (packet_at store i) m else packet_at store k)
packet_at-release store i m k e =
    ap (λ (t : List RetainablePacket). packet_at t k) (release-released store i m e)
    ∙ packet_at-set store i k _ (made store i m e)

-- The counts and the contents of the packets, by the holders of each.
pub record Held (store : List RetainablePacket) (n : ℕ → ℕ) : Type 0 where
  pub counts : (i : ℕ) → (packet_at store i).count ≡ pos (n i)
  pub contents : (i : ℕ) → 0 < n i → (packet_at store i).content ≢ none

pub release-Held :
    (store : List RetainablePacket) (n n' : ℕ → ℕ) (i : ℕ)
    → Held store n
    → 0 < n i
    → ((k : ℕ) → n' k + (if i == k then 1 else 0) ≡ n k)
    → Held (release store i) n'
release-Held store n n' i h p e =
    let m = n i - 1 in
    let c : (packet_at store i).count ≡ pos (suc m) = h.counts i ∙ ap pos (omega arith) in
    record {
      counts = λ k.
          ap (λ (q : RetainablePacket). q.count) (packet_at-release store i m k c)
          ∙ ground (arith, e k, h.counts k);
      contents = λ k pk. ground (
        arith,
        e k,
        h.contents k,
        ap (λ (q : RetainablePacket). q.content) (packet_at-release store i m k c),
      );
    }

pub retain-Held :
    (store store' : List RetainablePacket) (n n' : ℕ → ℕ) (i : ℕ)
    → Held store n
    → retain store i ≡ some store'
    → ((k : ℕ) → n' k ≡ n k + (if i == k then 1 else 0))
    → Held store' n'
unfolding retain
retain-Held store store' n n' i h e f =
    elim (Bool-cases (eqb_ℤ (packet_at store i).count (pos 0))) [
      | inl z ↦ absurd (ground arith)
      | inr z ↦
          let p = packet_at store i in
          let q = record p { count = p.count +ℤ pos 1 } in
          let is : set store i q ≡ store' = ground arith in
          let m = n i - 1 in
          let c : p.count ≡ pos (suc m) = h.counts i ∙ ap pos (ground (arith, h.counts i)) in
          let at = λ (k : ℕ).
            ap (λ (t : List RetainablePacket). packet_at t k) (sym is)
            ∙ packet_at-set store i k q (made store i m c) in
          let more = ap (λ (z : ℤ). z +ℤ pos 1) (h.counts i) ∙ one_more (n i) in
          record {
            counts = λ k.
                ap (λ (p : RetainablePacket). p.count) (at k)
                ∙ ground (arith, f k, h.counts k, more);
            contents = λ k pk. ground (
              arith,
              f k,
              c,
              h.counts i,
              h.contents k,
              ap (λ (p : RetainablePacket). p.content) (at k),
            );
          }
    ]

pub Held-ext :
    (store : List RetainablePacket) (n n' : ℕ → ℕ)
    → Held store n
    → ((k : ℕ) → n' k ≡ n k)
    → Held store n'
Held-ext store n n' h e = record {
  counts = λ k. h.counts k ∙ ap pos (sym (e k));
  contents = λ k p. h.contents k (omega (arith, e k));
}
