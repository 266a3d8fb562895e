-- ===== src/Tests/HttpTests.antt =====
-- The request handler and the limited listener at concrete requests.
use joy_pi_health.Prelude.{◌≤◌, ◌<◌, ◌+◌, ◌≡◌, ◌↔◌, refl, ◌⊎◌, true, false, some, [], arith}
use joy_pi_health.Result.{ok}
use joy_pi_health.Text.{bytes}
use joy_pi_health.Snapshot.Encode.{Encoded, is_valid_body}
use joy_pi_health.HttpApi.Handler.{
  Request, Answer, new_handler, returned, snapshot_path, method_get, maximum_admitted_requests,
  success, enter, admit, call_provider, conclude, set_failed, serve_http,
}
use joy_pi_health.HttpApi.Handler.Decision.{
  IsPlain, Delivers, IsDefective, is_ok, serve_http_iff, serve_http_state,
}
use joy_pi_health.HttpApi.Handler.Admission.{
  System, quiet, Reach, fresh, later, entering, admitting, marking_failed, admission_safe,
}
use joy_pi_health.HttpApi.Listener.{
  Listener, new_limited_listener, acquire, accepted, close_connection,
}
use joy_pi_health.HttpApi.Listener.Slots as S

abbrev asking : Request
asking = record {
  escaped_path = snapshot_path;
  method = method_get;
  raw_query = [];
  transfer_encoding = [];
  content_length = 0;
}

abbrev body : Encoded
body = record { body = bytes "{}" }

abbrev in_time : Answer
in_time = record { request_over = false; provided = returned (ok body); deadline_over = false }

serve_http_iff_example : ((serve_http new_handler asking in_time).1 ≡ some (success body)) ↔ (
    IsPlain asking
    × (new_handler.failed ≡ false)
    × (new_handler.slots < maximum_admitted_requests)
    × Delivers in_time body)
serve_http_iff_example = serve_http_iff new_handler asking in_time body

serve_http_state_example :
    ((serve_http new_handler asking in_time).0.slots ≡ 0)
    × (((serve_http new_handler asking in_time).0.failed ≡ true) ↔ (
        IsPlain asking
        × (0 < maximum_admitted_requests)
        × (false ≡ false)
        × IsDefective (call_provider in_time.provided)
        × ((is_ok (call_provider in_time.provided) ≡ false) ⊎ (false ≡ false))))
serve_http_state_example = serve_http_state new_handler asking in_time refl

abbrev one_waiting : System
one_waiting = record { handler = new_handler; waiting = 1; running = 0; marking = 0; panicked = 0 }

abbrev one_running : System
one_running = record {
  handler = record new_handler { slots = 1 };
  waiting = 0;
  running = 1;
  marking = 0;
  panicked = 0;
}

Reach-one_running : Reach one_running
unfolding enter admit
Reach-one_running =
    later (later fresh (entering quiet refl))
      (admitting one_waiting one_running.handler (omega arith) refl)

-- A defective answer, before `fatalOnce.Do`.
abbrev no_body : Answer
no_body = record {
  request_over = false;
  provided = returned (ok (record { body = [] }));
  deadline_over = false;
}

abbrev one_marking : System
one_marking = record {
  handler = record new_handler { slots = 1; failed = true };
  waiting = 0;
  running = 0;
  marking = 1;
  panicked = 0;
}

Reach-one_marking : Reach one_marking
unfolding conclude set_failed is_valid_body
Reach-one_marking =
    later Reach-one_running (marking_failed one_running false no_body (omega arith) (λ p. cc) refl)

admission_safe_example :
    (one_marking.running + one_marking.marking ≤ maximum_admitted_requests)
    × (one_marking.handler.slots ≡ one_marking.running + one_marking.marking)
    × (((one_marking.handler.failed ≡ false) × (one_marking.handler.fatal_calls ≡ 0))
        ⊎ ((one_marking.handler.failed ≡ true)
            × ((one_marking.handler.fatal_calls ≡ 1)
                ⊎ ((one_marking.handler.fatal_calls ≡ 0)
                    × (1 ≤ one_marking.marking + one_marking.panicked)))))
admission_safe_example = admission_safe one_marking Reach-one_marking

abbrev accepting_one : Listener
accepting_one = record { limit = 16; slots = 1; closed = false; accepting = 1; connections = [] }

Reach-accepted : S.Reach 16 (accepted true accepting_one)
unfolding new_limited_listener acquire
Reach-accepted =
    S.later (S.later S.fresh (S.taking (new_limited_listener 16) accepting_one refl))
      (S.accepting accepting_one true (omega arith))

slots_held_example :
    ((accepted true accepting_one).slots
      ≡ (accepted true accepting_one).accepting
        + S.open_connections (accepted true accepting_one).connections)
    × ((accepted true accepting_one).slots ≤ 16)
slots_held_example = S.slots_held 16 (accepted true accepting_one) Reach-accepted

close_connection_twice_example :
    close_connection 0 (close_connection 0 (accepted true accepting_one))
    ≡ close_connection 0 (accepted true accepting_one)
close_connection_twice_example = S.close_connection_twice 0 (accepted true accepting_one)
