-- ===== src/Nack/ReceiveLog/Tests.antt =====
use interceptor.Common.{
  ℕ, ◌+◌, ◌^◌, ◌≡◌, ◌≢◌, refl, inl, true, false, some, none, [], ◌∷◌, arith, if◌then◌else◌, ◌==◌,
}
use interceptor.Nack.ReceiveLog.{
  ReceiveLog, new, add, get, missing_seq_numbers, get_received, set_received, del_received, advance,
  clear_between, fix_last_consecutive, first_unreceived,
}
use interceptor.Common.Bits.{set_pos, clear_pos, test_pos, set_bit, clear_bit, test_bit}
use interceptor.Common.Range.{for_range, is_power}
use interceptor.Nack.ReceiveLog.Add.{IsValid, add-IsValid, get-add, get-add_stale}
use interceptor.Nack.ReceiveLog.Missing.{failing, missing_exact}

-- 65534 and 0 received, 65535 missing
abbrev sample : ReceiveLog
sample = record {
  packets = (2 ^ 62 + 1) ∷ [];
  size = 64;
  end = 0;
  started = true;
  last_consecutive = 65534;
}

abbrev empty : ReceiveLog
empty = record { packets = 0 ∷ []; size = 64; end = 0; started = false; last_consecutive = 0 }

sizes : (new 64 ≡ some empty) × (new 100 ≡ none)
unfolding new
sizes = (refl, refl)

sample_reached : add (add empty 65534) 0 ≡ sample
unfolding add advance clear_between fix_last_consecutive first_unreceived set_received del_received
    set_pos clear_pos set_bit clear_bit for_range
sample_reached = refl

sample_missing : missing_seq_numbers sample 0 64 ≡ some (65535 ∷ [])
unfolding missing_seq_numbers get_received test_pos test_bit
sample_missing = refl

sample-IsValid : IsValid sample
unfolding get_received test_pos test_bit is_power
sample-IsValid = ground arith

add-IsValid_example : IsValid (add sample 5)
add-IsValid_example = add-IsValid sample 5 sample-IsValid (omega arith)

get-add_example : get (add sample 5) 65534 ≡ (if 5 == 65534 then true else get sample 65534)
unfolding add advance clear_between fix_last_consecutive first_unreceived set_received del_received
    set_pos clear_pos set_bit clear_bit for_range
get-add_example =
    get-add sample 5 65534 sample-IsValid refl (omega arith) (omega arith) (inl (omega arith))
      (omega arith)

get-add_stale_example : ◌≢◌ {A = ℕ} 65535 65471 × (get (add sample 65471) 65535 ≡ true)
get-add_stale_example =
    get-add_stale sample 65471 65535 sample-IsValid refl (omega arith) (omega arith) (omega arith)
      (omega arith) (omega arith) refl

missing_exact_example : missing_seq_numbers sample 0 64 ≡ some (failing (get sample) 2 65535)
missing_exact_example = missing_exact sample 0 sample-IsValid (omega arith) (omega arith)
