-- ===== src/Jitter/Queue/Run.antt =====
-- A run of pushes.
use mathlib.Core.List.{Perm, perm_middle, append-nil}
use mathlib.Core.List.Perm
use interceptor.Common.{◌≡◌, ◌≢◌, refl, Option, none, some, List, [], ◌∷◌, ◌++◌, map, arith, All}
use interceptor.Jitter.Queue.{Packet, PriorityQueue, push, new}
use interceptor.Jitter.Queue.Chain.{Entry, IsQueue}
use interceptor.Jitter.Queue.Entries.{insert, All-insert, IsSorted, insert-IsSorted, insert-perm}
use interceptor.Jitter.Queue.Pushed.{HeadDiffers, pushed, push-insert}

-- `Push` of each packet with its number, where `none` is that a call never returns
pub push_all : PriorityQueue → List Packet → Option PriorityQueue
push_all q [] = some q
push_all q (p ∷ ps) = elim (push q p p.sequence_number) [ none ↦ none | some q' ↦ push_all q' ps ]

-- No two packets have the same number.
abbrev pub Distinct : List Packet → Type 0
Distinct [] = Unit
Distinct (p ∷ ps) = All (λ r. p.sequence_number ≢ r.sequence_number) ps × Distinct ps

-- No packet has the number of an entry.
abbrev Apart : List Entry → List Packet → Type 0
Apart xs = All (λ p. All (λ x. x.priority ≢ p.sequence_number) xs)

abbrev packet_of : Entry → Packet
packet_of x = x.packet

Apart-differs :
    (p : Packet) (xs : List Entry)
    → All (λ x. x.priority ≢ p.sequence_number) xs
    → HeadDiffers p.sequence_number xs
Apart-differs p [] a = tt
Apart-differs p (x ∷ xs) a = a.0

Apart-insert :
    (x : Entry) (xs : List Entry) (ps : List Packet)
    → All (λ r. x.priority ≢ r.sequence_number) ps
    → Apart xs ps
    → Apart (insert x xs) ps
Apart-insert x xs [] d a = tt
Apart-insert x xs (p ∷ ps) d a =
    (All-insert (λ y. y.priority ≢ p.sequence_number) x xs d.0 a.0, Apart-insert x xs ps d.1 a.1)

push_all-from :
    (ps : List Packet) (q : PriorityQueue) (xs : List Entry)
    → IsQueue q xs
    → IsSorted xs
    → Distinct ps
    → Apart xs ps
    → (q' : PriorityQueue) × (ys : List Entry) × (push_all q ps ≡ some q')
      × IsQueue q' ys
      × IsSorted ys
      × Perm (map packet_of ys) (map packet_of xs ++ ps)
unfolding push_all
push_all-from [] q xs v s d a =
    (q, xs, refl, v, s, rw (append-nil (map packet_of xs)) (Perm.refl (map packet_of xs)))
push_all-from (p ∷ ps) q xs v s d a =
    let (q1, e, v1, l) = push-insert q p p.sequence_number xs v (Apart-differs p xs a.0) in
    let x = pushed q p p.sequence_number in
    let (q', ys, done, v', s', same) =
      push_all-from ps q1 (insert x xs) v1 (insert-IsSorted x xs s) d.1
        (Apart-insert x xs ps d.0 a.1) in
    (
      q',
      ys,
      rw (e, push_all) done,
      v',
      s',
      Perm.trans same (
          Perm.trans (Perm.append_right ps (Perm.map packet_of (insert-perm x xs)))
            (Perm.symm (perm_middle {a = p} (map packet_of xs) ps))),
    )

new-IsQueue : IsQueue new []
new-IsQueue = record { chain = refl; few = omega arith }

no_entries-Apart : (ps : List Packet) → Apart [] ps
no_entries-Apart [] = tt
no_entries-Apart (p ∷ ps) = (tt, no_entries-Apart ps)

-- `Push` of any packets with different numbers into a new queue, in any order, always returns, and
-- leaves a queue that stands for a list of exactly these packets, sorted by their numbers.
pub push_all-IsSorted :
    (ps : List Packet)
    → Distinct ps
    → (q : PriorityQueue) × (xs : List Entry) × (push_all new ps ≡ some q)
      × IsQueue q xs
      × IsSorted xs
      × Perm (map (λ x. x.packet) xs) ps
push_all-IsSorted ps d = push_all-from ps new [] new-IsQueue tt d (no_entries-Apart ps)
