-- ===== src/Ipc/Tests.antt =====
-- The laws of the IPC bridge on a bridge with one command that returns a number.
use musaed.Base.{
  ℕ, String, true, false, none, some, List, [], ◌∷◌, ◌≡◌, refl, length, text_discrete,
}
use musaed.Base.Dict.{get, set}
use musaed.Ipc.Latency.{no_calls, Reading, record_latency, dispatch_violation_trace, hide_page}
use musaed.Ipc.Latency.Bounds.{Event, recorded, page_hidden, run}
use musaed.Ipc.Latency.Spacing.{IsThrottled, run-IsThrottled}
use musaed.Ipc.Transport.{Bridge, Options, answered, succeeded, call_internal}
use musaed.Ipc.Transport.Laws.{Told, call_internal-Told}

abbrev bridge : Bridge String ℕ
bridge = record {
  base_url = λ url. some url;
  is_valid_url = λ url. true;
  input_schema = λ command. none;
  return_schema = λ command. some (λ d. some d);
  budget = λ command. 100;
  is_tauri = true;
}

abbrev loud : Options
loud = record { quiet = false; throw_on_error = true }

abbrev reading : ℕ → ℕ → Reading
reading elapsed now = record { elapsed = elapsed; now = now; fresh_id = "t" }

abbrev slow_calls : List Event
slow_calls =
    recorded "chat" 100 (reading 250 1000)
    ∷ recorded "chat" 100 (reading 300 2000)
    ∷ recorded "chat" 100 (reading 300 40000)
    ∷ []

-- Two violations within a second are both kept when the page was hidden in between.
hidden_between :
    length
      (run
        (recorded "chat" 100 (reading 250 1000)
          ∷ page_hidden
          ∷ recorded "chat" 100 (reading 300 2000)
          ∷ [])
        no_calls).history
    ≡ 2
unfolding record_latency dispatch_violation_trace hide_page get set text_discrete
hidden_between = refl

run-IsThrottled_example : IsThrottled (run slow_calls no_calls)
run-IsThrottled_example = run-IsThrottled slow_calls no_calls (tt, (tt, (tt, tt))) (tt, tt)

call_internal-Told_example :
    Told {E = String} bridge "chat" "http://localhost"
      (answered (succeeded (some 5)))
      (call_internal bridge loud "chat" "http://localhost"
        (answered (succeeded (some 5)))
        (reading 20 1000)
        (reading 21 1000)
        no_calls).0
call_internal-Told_example =
    call_internal-Told bridge loud "chat" "http://localhost" (answered (succeeded (some 5)))
      (reading 20 1000) (reading 21 1000) no_calls
