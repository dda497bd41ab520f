-- ===== src/Jitter/Queue/Samples.antt =====
-- Packets and a queue for the tests.
use interceptor.Common.{ℕ, none, some, List, [], ◌∷◌, arith, refl}
use interceptor.Jitter.Queue.{Packet, PriorityQueue}
use interceptor.Jitter.Queue.Chain.{Entry, IsQueue}

abbrev pub packet : ℕ → Packet
packet n = record { sequence_number = n; timestamp = n; payload = [] }

-- 7 came before 5
abbrev pub two_packets : PriorityQueue
two_packets = record {
  nodes =
      record { val = some (packet 7); next = none; prev = some 1; priority = 7 }
      ∷ record { val = some (packet 5); next = some 0; prev = none; priority = 5 }
      ∷ [];
  next = some 1;
  length = 2;
}

abbrev pub two_entries : List Entry
two_entries =
    record { at = 1; packet = packet 5; priority = 5 }
    ∷ record { at = 0; packet = packet 7; priority = 7 }
    ∷ []

pub two_packets-IsQueue : IsQueue two_packets two_entries
two_packets-IsQueue = record {
  chain = (
    refl,
    omega arith,
    record { val = refl; priority = refl },
    ((λ e. absurd (omega (arith, e))), tt),
    (refl, omega arith, record { val = refl; priority = refl }, tt, refl),
  );
  few = omega arith;
}
