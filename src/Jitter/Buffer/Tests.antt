-- ===== src/Jitter/Buffer/Tests.antt =====
-- A buffer that plays two packets across the wrap-around.
use interceptor.Common.{◌≡◌, refl, none, some, [], ◌∷◌, arith, true}
use interceptor.Jitter.Queue.{PriorityQueue, ok}
use interceptor.Jitter.Queue.Chain.{lookup}
use interceptor.Jitter.Queue.Samples.{packet}
use interceptor.Jitter.Buffer.{JitterBuffer, new, emitting}
use interceptor.Jitter.Buffer.Playout.{pop_run, pop_run-Ready}

abbrev across : PriorityQueue
across = record {
  nodes =
      record { val = some (packet 65535); next = none; prev = some 1; priority = 65535 }
      ∷ record { val = some (packet 0); next = some 0; prev = none; priority = 0 }
      ∷ [];
  next = some 1;
  length = 2;
}

abbrev playing : JitterBuffer
playing = record new {
  packets = across;
  playout_head = 65535;
  playout_ready = true;
  state = emitting;
}

pop_run-Ready_example : pop_run 2 playing ≡ ok (some (packet 65535)) ∷ ok (some (packet 0)) ∷ []
unfolding lookup
pop_run-Ready_example =
    pop_run-Ready (packet 65535 ∷ packet 0 ∷ []) playing
      (record { at = 1; packet = packet 0; priority = 0 }
        ∷ record { at = 0; packet = packet 65535; priority = 65535 }
        ∷ [])
      refl
      (record {
        chain = (
          refl,
          omega arith,
          record { val = refl; priority = refl },
          ((λ e. absurd (omega (arith, e))), tt),
          (refl, omega arith, record { val = refl; priority = refl }, tt, refl),
        );
        few = omega arith;
      })
      (omega arith) (omega arith) (refl, (refl, tt))
