-- ===== src/Nack/Generator.antt =====
-- The tick of pkg/nack/generator_interceptor.go for one stream: which of the missing packets to ask
-- for, and how often each has been asked for. A count log is an association list; a log that is
-- not there is the empty one.
pub mod Counts
mod Tests
use interceptor.Common.{
  ℕ, zero, suc, ◌+◌, ◌%◌, Bool, true, false, ◌||◌, Option, none, some, List, [], ◌∷◌, ltb, ◌==◌,
  if◌then◌else◌,
}

abbrev pub CountLog : Type 0
CountLog = List (ℕ × ℕ)

-- `slices.Contains`
unfoldable pub contains : ℕ → List ℕ → Bool
contains n [] = false
contains n (x ∷ xs) = let rest = contains n xs in if x == n then true else rest

-- `n.nackCountLogs[ssrc][seq]`, 0 for a missing key
unfoldable pub count_of : CountLog → ℕ → ℕ
count_of [] seq = 0
count_of ((k, c) ∷ log) seq = let rest = count_of log seq in if k == seq then c else rest

-- `n.nackCountLogs[ssrc][seq]++`, of a uint16
unfoldable pub bump : CountLog → ℕ → CountLog
bump [] seq = (seq, 1) ∷ []
bump ((k, c) ∷ log) seq =
    let rest = bump log seq in if k == seq then (k, (c + 1) % 65536) ∷ log else (k, c) ∷ rest

-- the loop over the missing packets: those that have not been asked for too often
unfoldable pub filter_missing : ℕ → List ℕ → CountLog → List ℕ × CountLog
filter_missing max [] log = ([], log)
filter_missing max (m ∷ missing) log =
    let (filtered, log') = filter_missing max missing (bump log m) in
    (if ltb (count_of log m) max then m ∷ filtered else filtered, log')

-- the deletion of the counts of packets that are not missing any more
unfoldable pub prune : List ℕ → CountLog → CountLog
prune missing [] = []
prune missing ((k, c) ∷ log) =
    let rest = prune missing log in if contains k missing then (k, c) ∷ rest else rest

abbrev pub send_filtered : List ℕ → List ℕ × CountLog → Option (List ℕ) × CountLog
send_filtered missing ([], log) = (none, log)
send_filtered missing (m ∷ filtered, log) = (some (m ∷ filtered), prune missing log)

-- a tick, on what `missingSeqNumbers` returns: the numbers of the NACK, or `none` without a NACK
unfoldable pub tick : ℕ → List ℕ → CountLog → Option (List ℕ) × CountLog
tick max [] log = (none, [])
tick max (m ∷ missing) log =
    if ltb 0 max
    then send_filtered (m ∷ missing) (filter_missing max (m ∷ missing) log)
    else (some (m ∷ missing), prune (m ∷ missing) log)

-- 1 for a NACK that asks for the number
unfoldable pub asks : ℕ → Option (List ℕ) → ℕ
asks n none = 0
asks n (some ms) = if contains n ms then 1 else 0

-- how many of the NACKs of a run of ticks ask for the number
unfoldable pub asked : ℕ → ℕ → List (List ℕ) → CountLog → ℕ
asked max n [] log = 0
asked max n (missing ∷ ticks) log =
    let (nack, log') = tick max missing log in asks n nack + asked max n ticks log'
