-- ===== src/Jitter/Queue.antt =====
-- pkg/jitterbuffer/priority_queue.go: a doubly linked list of packets. The nodes live in a store and
-- a pointer is an index into it, so that a list that runs into itself can be seen: a walk of more
-- steps than there are nodes has come back to a node, and the loop of the code never ends.
pub mod Store
pub mod Chain
pub mod Entries
pub mod Insertion
pub mod Pushed
pub mod Run
pub mod Unlinked
pub mod Removal
pub mod Cleared
pub mod Cycle
pub mod Samples
mod Tests
use interceptor.Common.{
  ℕ, zero, suc, ◌+◌, ◌-◌, ◌%◌, Bool, true, false, Option, none, some, List, [], ◌∷◌, ◌++◌, leb, ltb,
  ◌==◌, if◌then◌else◌, length, get_or, set, add16, sub16,
}

-- the fields of the RTP library's Packet that are read here
pub record Packet : Type 0 where
  pub sequence_number : ℕ
  pub timestamp : ℕ
  pub payload : List ℕ

-- `node`; a value is nil once it has been popped
pub record Node : Type 0 where
  pub val : Option Packet
  pub next : Option ℕ
  pub prev : Option ℕ
  pub priority : ℕ

pub record PriorityQueue : Type 0 where
  pub nodes : List Node
  pub next : Option ℕ
  pub length : ℕ

-- ErrInvalidOperation and ErrNotFound, and the ErrPopWhileBuffering and ErrBufferUnderrun of the
-- jitter buffer
pub data Error : Type 0 where
  invalid_operation : Error
  not_found : Error
  pop_while_buffering : Error
  buffer_underrun : Error

-- what a call returns, or that it never does
pub data Result {ℓ} (A : Type ℓ) : Type ℓ where
  ok : A → Result A
  failed : Error → Result A
  hangs : Result A

-- `NewQueue`
abbrev pub new : PriorityQueue
new = record { nodes = []; next = none; length = 0 }

-- `newNode`
abbrev pub new_node : Packet → ℕ → Node
new_node val priority = record { val = some val; next = none; prev = none; priority = priority }

abbrev pub node_at : List Node → ℕ → Node
node_at s i = get_or s i (record { val = none; next = none; prev = none; priority = 0 })

-- writes through a pointer; a nil pointer is tested for before each of them
abbrev pub set_next : List Node → Option ℕ → Option ℕ → List Node
set_next s none p = s
set_next s (some i) p = set s i (record (node_at s i) { next = p })

abbrev pub set_prev : List Node → Option ℕ → Option ℕ → List Node
set_prev s none p = s
set_prev s (some i) p = set s i (record (node_at s i) { prev = p })

abbrev pub clear_val : List Node → ℕ → List Node
clear_val s i = set s i (record (node_at s i) { val = none })

-- the loop of `Find`
pub find_from : ℕ → List Node → Option ℕ → ℕ → Result (Option Packet)
find_from k s none sq_num = failed not_found
find_from zero s (some i) sq_num = hangs
find_from (suc k) s (some i) sq_num =
    let rest = find_from k s (node_at s i).next sq_num in
    if (node_at s i).priority == sq_num then ok (node_at s i).val else rest

-- `Find`
unfoldable pub find : PriorityQueue → ℕ → Result (Option Packet)
unfolding find_from
find q sq_num = find_from (length q.nodes) q.nodes q.next sq_num

-- the loop of `Push`: the first node of at least this priority, and the one before it
pub search : ℕ → List Node → ℕ → Option ℕ → Option ℕ → Option (Option ℕ × Option ℕ)
search k s priority none prev = some (none, prev)
search zero s priority (some i) prev = none
search (suc k) s priority (some i) prev =
    let rest = search k s priority (node_at s i).next (some i) in
    if leb priority (node_at s i).priority then some (some i, prev) else rest

-- the new node between `prev` and `head`
abbrev pub link : List Node → ℕ → Option ℕ → Option ℕ → List Node
link s n none prev = set_prev (set_next s prev (some n)) (some n) prev
link s n (some h) prev =
    set_prev (set_next (set_prev (set_next s (some n) (some h)) (some n) prev) prev (some n))
      (some h) (some n)

-- `Push`, where `none` is that it never returns
unfoldable pub push : PriorityQueue → Packet → ℕ → Option PriorityQueue
unfolding search
push q val priority =
    let n = length q.nodes in
    let s = q.nodes ++ (new_node val priority ∷ []) in
    let grown = add16 q.length 1 in
    elim q.next [
      | none ↦ some (record { nodes = s; next = some n; length = grown })
      | some i ↦
          if ltb priority (node_at s i).priority
          then some (record {
            nodes = set_prev (set_next s (some n) (some i)) (some i) (some n);
            next = some n;
            length = grown;
          })
          else elim (search (length s) s priority (some i) (some i)) [
            | none ↦ none
            | some (head, prev) ↦
                some (record { nodes = link s n head prev; next = some i; length = grown })
          ]
    ]

-- `Pop`
unfoldable pub pop : PriorityQueue → Result (Option Packet) × PriorityQueue
pop q = elim q.next [
  | none ↦ (failed invalid_operation, q)
  | some i ↦ (
    ok (node_at q.nodes i).val,
    record {
      nodes = clear_val q.nodes i;
      next = (node_at q.nodes i).next;
      length = sub16 q.length 1;
    },
  )
]

-- `prev.next = pos.next`, and `prev.next.prev = prev`
abbrev pub unlink : List Node → ℕ → Option ℕ → List Node
unlink s i prev =
    set_prev (set_next (clear_val s i) prev (node_at s i).next) (node_at s i).next prev

module _ (matches : Node → Bool) where
  -- the loop of `PopAt` and `PopAtTimestamp`
  unfoldable pub take_from :
      ℕ → PriorityQueue → Option ℕ → Option ℕ → Result (Option Packet) × PriorityQueue
  take_from k q none prev = (failed not_found, q)
  take_from zero q (some i) prev = (hangs, q)
  take_from (suc k) q (some i) prev =
      let rest = take_from k q (node_at q.nodes i).next (some i) in
      if matches (node_at q.nodes i)
      then (
        ok (node_at q.nodes i).val,
        record q { nodes = unlink q.nodes i prev; length = sub16 q.length 1 },
      )
      else rest

  unfoldable pub take_matching : PriorityQueue → Result (Option Packet) × PriorityQueue
  unfolding take_from
  take_matching q = elim q.next [
    | none ↦ (failed invalid_operation, q)
    | some i ↦
        if matches (node_at q.nodes i)
        then (
          ok (node_at q.nodes i).val,
          record {
            nodes = clear_val q.nodes i;
            next = (node_at q.nodes i).next;
            length = sub16 q.length 1;
          },
        )
        else take_from (length q.nodes) q (some i) (node_at q.nodes i).prev
  ]

-- `PopAt`
unfoldable pub pop_at : PriorityQueue → ℕ → Result (Option Packet) × PriorityQueue
unfolding take_matching
pop_at q sq_num = take_matching (λ n. n.priority == sq_num) q

abbrev has_timestamp : ℕ → Node → Bool
has_timestamp timestamp n = elim n.val [ none ↦ false | some p ↦ p.timestamp == timestamp ]

-- `PopAtTimestamp`
unfoldable pub pop_at_timestamp : PriorityQueue → ℕ → Result (Option Packet) × PriorityQueue
unfolding take_matching
pop_at_timestamp q timestamp = take_matching (has_timestamp timestamp) q

-- the loop of `Clear`
unfoldable pub clear_from : ℕ → List Node → Option ℕ → Option (List Node)
clear_from k s none = some s
clear_from zero s (some i) = none
clear_from (suc k) s (some i) = clear_from k (set_prev s (some i) none) (node_at s i).next

-- `Clear`, where `none` is that it never returns; it leaves the list in place
unfoldable pub clear : PriorityQueue → Option PriorityQueue
unfolding clear_from
clear q = elim (clear_from (length q.nodes) q.nodes q.next) [
  | none ↦ none
  | some s ↦ some (record { nodes = s; next = q.next; length = 0 })
]
