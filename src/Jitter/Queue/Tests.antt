-- ===== src/Jitter/Queue/Tests.antt =====
-- The queue on two packets.
use mathlib.Core.List.{Perm}
use interceptor.Jitter.Queue.Run.{push_all, push_all-IsSorted}
use interceptor.Jitter.Queue.Entries.{IsSorted}
use interceptor.Common.{map, ℕ, ◌≡◌, refl, some, arith, add16, List, [], ◌∷◌}
use interceptor.Jitter.Queue.{new, PriorityQueue, hangs, find, find_from, push, pop_at, clear}
use interceptor.Jitter.Queue.Samples.{packet, two_packets, two_entries, two_packets-IsQueue}
use interceptor.Jitter.Queue.Chain.{Entry, IsQueue, lookup, find-lookup}
use interceptor.Jitter.Queue.Entries.{insert}
use interceptor.Jitter.Queue.Pushed.{pushed, push-insert}
use interceptor.Jitter.Queue.Entries.{remove, pop_result}
use interceptor.Jitter.Queue.Removal.{pop_at-remove}
use interceptor.Jitter.Queue.Cycle.{push-find_hangs}
use interceptor.Jitter.Queue.Cleared.{clear-find}

find-lookup_example : find two_packets 7 ≡ lookup 7 two_entries
find-lookup_example = find-lookup two_packets two_entries 7 two_packets-IsQueue

push-insert_example :
    (q' : PriorityQueue) × (push two_packets (packet 6) 6 ≡ some q')
    × IsQueue q' (insert (pushed two_packets (packet 6) 6) two_entries)
    × (q'.length ≡ add16 2 1)
push-insert_example =
    push-insert two_packets (packet 6) 6 two_entries two_packets-IsQueue
      (λ e. absurd (omega (arith, e)))

pop_at-remove_example :
    ((pop_at two_packets 7).0 ≡ pop_result 7 two_entries)
    × IsQueue (pop_at two_packets 7).1 (remove 7 two_entries)
pop_at-remove_example = pop_at-remove two_packets 7 two_entries two_packets-IsQueue

push-find_hangs_example :
    (q' : PriorityQueue) × (push two_packets (packet 5) 5 ≡ some q')
    × ((k : ℕ) → find_from k q'.nodes q'.next 7 ≡ hangs)
push-find_hangs_example =
    push-find_hangs two_packets 1 (packet 5) 7 refl (omega arith) (λ e. absurd (omega (arith, e)))

clear-find_example :
    (q' : PriorityQueue) × (clear two_packets ≡ some q')
    × (q'.length ≡ 0)
    × IsQueue q' two_entries
    × ((sq_num : ℕ) → find q' sq_num ≡ find two_packets sq_num)
clear-find_example = clear-find two_packets two_entries two_packets-IsQueue

push_all-IsSorted_example :
    (q : PriorityQueue) × (xs : List Entry) × (push_all new (packet 7 ∷ packet 5 ∷ packet 9 ∷ [])
      ≡ some q)
    × IsQueue q xs
    × IsSorted xs
    × Perm (map (λ x. x.packet) xs) (packet 7 ∷ packet 5 ∷ packet 9 ∷ [])
push_all-IsSorted_example = push_all-IsSorted (packet 7 ∷ packet 5 ∷ packet 9 ∷ []) (
  ((λ e. absurd (omega (arith, e))), ((λ e. absurd (omega (arith, e))), tt)),
  (((λ e. absurd (omega (arith, e))), tt), (tt, tt)),
)
