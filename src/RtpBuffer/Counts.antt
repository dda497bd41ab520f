-- ===== src/RtpBuffer/Counts.antt =====
-- What `Get` returns, in a buffer whose packets have the counts of their holders.
use interceptor.Common.{
  ℕ, zero, suc, ◌+◌, ◌-◌, ◌%◌, ◌<◌, ◌≡◌, ◌≢◌, ◌⊎◌, refl, sym, subst, ap, ◌∙◌, Bool, true, false,
  Option, some, none, List, [], ◌∷◌, arith, ◌==◌, if◌then◌else◌, get_or, set, sub16, Bool-cases,
  Option-cases, inl, inr, if_elim,
}
use interceptor.Common.Int.{pos, ◌+ℤ◌, eqb_ℤ}
use interceptor.RtpBuffer.{
  RetainablePacket, RtpBuffer, packet_at, retain, release, slot, add, checked, lookup, get,
}
use interceptor.RtpBuffer.Accounts.{is_here, places, holders, Accounts, takes, add-Accounts}
use interceptor.RtpBuffer.Held.{release-Held, retain-Held}
use interceptor.RtpBuffer.Effect.{IsValid, lookup-add}

places-get_or : (os : List (Option ℕ)) (k i : ℕ) → get_or os k none ≡ some i → 0 < places os i
unfolding places
places-get_or [] k i e = absurd (ground arith)
places-get_or (o ∷ os) zero i e = ground arith
places-get_or (o ∷ os) (suc k) i e = let r = places-get_or os k i e in omega (arith, r)

lookup-slot : (r : RtpBuffer) (seq i : ℕ) → lookup r seq ≡ some i → slot r seq ≡ some i
unfolding lookup checked
lookup-slot r seq i e = ground arith

-- what `Get` returns
abbrev pub returned : RtpBuffer → ℕ → Option ℕ
returned r seq = (get r seq).0

-- What is found is retained and returned.
get-found :
    (r : RtpBuffer) (out : ℕ → ℕ) (seq i : ℕ)
    → Accounts r out
    → lookup r seq ≡ some i
    → (store : List RetainablePacket) × (retain r.store i ≡ some store)
      × (get r seq ≡ (some i, record r { store = store }))
unfolding get retain slot
get-found r out seq i a e =
    let p = places-get_or r.packets (seq % r.size) i (lookup-slot r seq i e) in
    let z : eqb_ℤ (packet_at r.store i).count (pos 0) ≡ false =
      ground (arith, a.held.counts i, p) in
    let q = packet_at r.store i in
    (set r.store i (record q { count = q.count +ℤ pos 1 }), rw z refl, rw (e, get, z) refl)

get-missed : (r : RtpBuffer) (seq : ℕ) → lookup r seq ≡ none → get r seq ≡ (none, r)
unfolding get
get-missed r seq e = rw (e, get) refl

returned-lookup :
    (r : RtpBuffer) (out : ℕ → ℕ) (seq : ℕ) → Accounts r out → returned r seq ≡ lookup r seq
returned-lookup r out seq a = elim (Option-cases (lookup r seq)) [
  | inl e ↦ ap (λ x. x.0) (get-missed r seq e) ∙ sym e
  | inr (i, e) ↦ let (store, _, g) = get-found r out seq i a e in ap (λ x. x.0) g ∙ sym e
]

-- one holder more or less
abbrev pub more : (ℕ → ℕ) → ℕ → ℕ → ℕ
more out i k = out k + is_here k (some i)

abbrev pub less : (ℕ → ℕ) → ℕ → ℕ → ℕ
less out i k = out k - is_here k (some i)

less_back : (out : ℕ → ℕ) (i k : ℕ) → 0 < out i → less out i k + is_here k (some i) ≡ out k
less_back out i k h =
    if_elim (λ (n : ℕ). out k - n + n ≡ out k) (i == k) 1 0
      (λ e. let same : i ≡ k = ground arith in let p = ap out same in omega (arith, p, h))
      (λ e. omega arith)

-- The calls on a buffer, with who holds a packet outside of it: who gets one holds it, who releases one
-- or adds it to the buffer held it. A packet that `Add` does not take stays with who held it.
pub data Step (r : RtpBuffer) (out : ℕ → ℕ) : RtpBuffer → (ℕ → ℕ) → Type 0 where
  got : (seq i : ℕ) → returned r seq ≡ some i → Step r out (get r seq).1 (more out i)
  missed : (seq : ℕ) → returned r seq ≡ none → Step r out (get r seq).1 out
  given_back :
      (i : ℕ) → 0 < out i → Step r out (record r { store = release r.store i }) (less out i)
  added : (i : ℕ) → 0 < out i → Step r out (add r i) (if takes r i then less out i else out)

pub data Steps (r : RtpBuffer) (out : ℕ → ℕ) : RtpBuffer → (ℕ → ℕ) → Type 0 where
  done : Steps r out r out
  next :
      {s t : RtpBuffer} {mid out' : ℕ → ℕ}
      → Steps r out s mid
      → Step s mid t out'
      → Steps r out t out'

added-Accounts :
    (r : RtpBuffer) (out : ℕ → ℕ) (i : ℕ)
    → Accounts r out
    → 0 < out i
    → Accounts (add r i) (if takes r i then less out i else out)
added-Accounts r out i a h =
    let P = λ (b : Bool). Accounts (add r i) (if b then less out i else out) in
    let held_by = λ (b : Bool) (n : ℕ → ℕ) (k : ℕ). n k + (if b then is_here k (some i) else 0) in
    elim (Bool-cases (takes r i)) [
      | inl e ↦ subst P (sym e) (
          add-Accounts r i out (less out i) a
            (λ k. ap (λ b. held_by b (less out i) k) e ∙ less_back out i k h))
      | inr e ↦
          subst P (sym e)
            (add-Accounts r i out out a (λ k. ap (λ b. held_by b out k) e ∙ omega arith))
    ]

got-Accounts :
    (r : RtpBuffer) (out : ℕ → ℕ) (seq i : ℕ)
    → Accounts r out
    → returned r seq ≡ some i
    → Accounts (get r seq).1 (more out i)
unfolding slot
got-Accounts r out seq i a e =
    let l : lookup r seq ≡ some i = sym (returned-lookup r out seq a) ∙ e in
    let (store, kept, g) = get-found r out seq i a l in
    subst (λ x. Accounts x.1 (more out i)) (sym g)
      (record {
        ring = ground (arith, a.ring);
        held = retain-Held r.store store (holders r out) _ i a.held kept (λ k. omega arith);
        fresh = a.fresh;
      })

missed-Accounts :
    (r : RtpBuffer) (out : ℕ → ℕ) (seq : ℕ)
    → Accounts r out
    → returned r seq ≡ none
    → Accounts (get r seq).1 out
missed-Accounts r out seq a e =
    let l : lookup r seq ≡ none = sym (returned-lookup r out seq a) ∙ e in
    subst (λ x. Accounts x.1 out) (sym (get-missed r seq l)) a

Step-Accounts :
    {r : RtpBuffer} {out : ℕ → ℕ} {s : RtpBuffer} {out' : ℕ → ℕ}
    → Step r out s out'
    → Accounts r out
    → Accounts s out'
unfolding slot
Step-Accounts {r} {out = out} (got seq i e) a = got-Accounts r out seq i a e
Step-Accounts {r} {out = out} (missed seq e) a = missed-Accounts r out seq a e
Step-Accounts {r} {out = out} (given_back i h) a = record {
  ring = ground (arith, a.ring);
  held =
      release-Held r.store (holders r out) _ i a.held (omega (arith, h))
        (λ k. let b = less_back out i k h in omega (arith, b));
  fresh = a.fresh;
}
Step-Accounts {r} {out = out} (added i h) a = added-Accounts r out i a h

Steps-Accounts :
    {r : RtpBuffer} {out : ℕ → ℕ} {s : RtpBuffer} {out' : ℕ → ℕ}
    → Steps r out s out'
    → Accounts r out
    → Accounts s out'
Steps-Accounts done a = a
Steps-Accounts (next ss st) a = Step-Accounts st (Steps-Accounts ss a)

-- Begin with a buffer whose packets have the counts of their holders: the places of the buffer, and
-- those outside to whom a packet has been handed. After any calls of `Get`, `Release` and `Add`, where a
-- packet is released, or added to the buffer, only by who holds it, the counts are again those of the
-- holders, and a packet that has one has not gone back to its pool: its content is there. `Get` then
-- returns every packet that is found by its number.
pub get-release :
    (r s : RtpBuffer) (out out' : ℕ → ℕ) (seq i : ℕ)
    → Accounts r out
    → Steps r out s out'
    → 0 < holders s out' i
    → ((packet_at s.store i).count ≡ pos (holders s out' i))
      × ((packet_at s.store i).content ≢ none)
      × (returned s seq ≡ lookup s seq)
get-release r s out out' seq i a ss h =
    let b = Steps-Accounts ss a in
    (b.held.counts i, b.held.contents i h, returned-lookup s out' seq b)

-- `Add`, by who holds the packet, of one whose number is newer than the highest one, or older but
-- inside the window, has this effect on what `Get` returns, when the packets have the counts of their
-- holders: that packet is returned for its number, and for every other of the last `size` numbers what
-- was returned before.
pub returned-add :
    (r : RtpBuffer) (out : ℕ → ℕ) (i j : ℕ)
    → IsValid r
    → Accounts r out
    → 0 < out i
    → r.started ≡ true
    → (packet_at r.store i).sequence_number < 65536
    → (packet_at r.store i).sequence_number ≢ r.highest_added
    → (sub16 (packet_at r.store i).sequence_number r.highest_added < 32768)
      ⊎ (sub16 r.highest_added (packet_at r.store i).sequence_number < r.size)
    → j < 65536
    → sub16 (add r i).highest_added j < r.size
    → returned (add r i) j
      ≡ (if (packet_at r.store i).sequence_number == j then some i else returned r j)
returned-add r out i j v a h st hs ne c hj w =
    returned-lookup (add r i) _ j (added-Accounts r out i a h)
    ∙ (lookup-add r i j v st hs ne c hj w
        ∙ ap (λ o. if (packet_at r.store i).sequence_number == j then some i else o)
            (sym (returned-lookup r out j a)))
