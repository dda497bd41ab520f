-- ===== src/Report.antt =====
-- pkg/report: what the reports of a receiver and of a sender say about the packets of a stream.
pub mod ReceiverStream
pub mod SenderStream
use interceptor.Common.{ℕ, Bool}

-- float64 `F` and time.Time `T`
pub record Floats (T F : Type 0) : Type 0 where
  pub zero_time : T
  pub is_zero : T → Bool
  -- `UnixNano`, as a float64
  pub unix_nano : T → F
  pub seconds_between : T → T → F
  pub of_nat : ℕ → F
  pub plus : F → F → F
  pub minus : F → F → F
  pub times : F → F → F
  pub over : F → F → F
  pub negated : F → F
  pub is_negative : F → Bool
  pub to_uint8 : F → ℕ
  pub to_uint32 : F → ℕ

-- the fields of rtp.Header that the code reads
pub record Header : Type 0 where
  pub sequence_number : ℕ
  pub timestamp : ℕ
