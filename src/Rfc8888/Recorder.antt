-- ===== src/Rfc8888/Recorder.antt =====
-- pkg/rfc8888/recorder.go: the stream logs by SSRC. The order in which Go ranges over the map of streams
-- is a parameter, as is the time stamp of the report.
use interceptor.Common.{ℕ, ◌+◌, ◌*◌, Option, none, some, List, [], ◌∷◌, ◌==◌, if◌then◌else◌, length}
use interceptor.Common.Int.{ℤ, pos, ◌-ℤ◌, quot}
use interceptor.Rfc8888.StreamLog
use interceptor.Rfc8888.StreamLog.{Clock, StreamLog, ReportBlock, add, metrics_after}

pub record Recorder (T : Type 0) : Type 0 where
  pub ssrc : ℕ
  pub streams : List (ℕ × StreamLog T)

pub record CcFeedbackReport : Type 0 where
  pub sender_ssrc : ℕ
  pub report_blocks : List ReportBlock
  pub report_timestamp : ℕ

module _ {T : Type 0} where
  abbrev pub new_recorder : Recorder T
  new_recorder = record { ssrc = 0; streams = [] }

  -- the stream of an SSRC, or a new one, changed
  unfoldable pub update :
      List (ℕ × StreamLog T) → ℕ → (StreamLog T → StreamLog T) → List (ℕ × StreamLog T)
  update [] ssrc f = (ssrc, f (StreamLog.new ssrc)) ∷ []
  update (x ∷ xs) ssrc f =
      let rest = update xs ssrc f in if x.0 == ssrc then (x.0, f x.1) ∷ xs else x ∷ rest

  unfoldable pub add_packet : Recorder T → T → ℕ → ℕ → ℕ → Recorder T
  unfolding update add
  add_packet r ts ssrc seq ecn = record r {
    streams = update r.streams ssrc (λ l. add l ts seq ecn);
  }

  abbrev pub cons_report :
      ℕ
      → ReportBlock × StreamLog T
      → Option (List ReportBlock × List (ℕ × StreamLog T))
      → Option (List ReportBlock × List (ℕ × StreamLog T))
  cons_report ssrc b none = none
  cons_report ssrc b (some r) = some (b.0 ∷ r.0, (ssrc, b.1) ∷ r.1)

  -- the loop over the streams, in the order of the list; `none` is a panic
  unfoldable pub report_all :
      Clock T → T → ℤ → List (ℕ × StreamLog T) → Option (List ReportBlock × List (ℕ × StreamLog T))
  unfolding metrics_after
  report_all c now max [] = some ([], [])
  report_all c now max (x ∷ xs) = elim (metrics_after c x.1 now max) [
    | none ↦ none
    | some b ↦ cons_report x.0 b (report_all c now max xs)
  ]

  abbrev pub finish_report :
      Recorder T
      → ℕ
      → Option (List ReportBlock × List (ℕ × StreamLog T))
      → Option (CcFeedbackReport × Recorder T)
  finish_report r stamp none = none
  finish_report r stamp (some q) = some (
    record { sender_ssrc = r.ssrc; report_blocks = q.0; report_timestamp = stamp },
    record r { streams = q.1 },
  )

  -- `BuildReport`, whose division by the number of streams panics when there is none
  unfoldable pub build_report :
      Clock T → (T → ℕ) → Recorder T → T → ℕ → Option (CcFeedbackReport × Recorder T)
  unfolding report_all ◌-ℤ◌
  build_report c to_ntp32 r now max_size =
      let n = length r.streams in
      if n == 0
      then none
      else finish_report r (to_ntp32 now)
          (report_all c now (quot (quot (pos max_size -ℤ pos (12 + 8 * n)) 2) n) r.streams)
