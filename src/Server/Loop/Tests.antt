-- ===== src/Server/Loop/Tests.antt =====
-- Inputs for the theorems on the event loop of bjoern/server.c, and tests of it.
use bjoern.Common.{ℕ, ◌+◌, ◌≤◌, ◌≡◌, refl, inl, true, false, some, List, [], ◌∷◌, codes, length}
use bjoern.Url.{unquote_url_inplace}
use bjoern.Request.{request_new}
use bjoern.Request.Parse.{request_parse, callback, run_asserts}
use bjoern.Response.{wsgi_call_application, start_response}
use bjoern.Server.{close_connection}
use bjoern.Server.Read.{
  received, disconnected, ev_io_on_read, checked_read, read_asserts, after_parse_asserts,
}
use bjoern.Server.Accept.{ev_io_on_request}
use bjoern.Server.Tests.{surroundings, new_client, whole_get, answering}
use bjoern.Server.Loop.{
  Loop, server_run, Event, client, readable, interrupt, loop_step, run_loop, has_ended,
  on_connection,
}
use bjoern.Server.Loop.Calls.{find}
use bjoern.Server.Loop.Steps.{
  Turns, no_turn, turn_then, accept_turn, read_turn, IsServing, loop-IsServing,
}
use bjoern.Server.Loop.Shutdown.{IsStopping, interrupt_once}
use bjoern.Server.Loop.Completion.{shutdown_completes}

abbrev at_start : Loop
at_start = record {
  accepting = true;
  sigint = true;
  timer = true;
  connections = [];
  interrupts = 0;
}

abbrev one_client : Loop
one_client = record at_start { connections = (7, new_client) ∷ [] }

abbrev two_clients : Loop
two_clients = record at_start { connections = (8, new_client) ∷ (7, new_client) ∷ [] }

-- The older client has sent a request.
abbrev busy : Loop
busy = record at_start { connections = (8, new_client) ∷ (7, answering) ∷ [] }

abbrev client_address : List ℕ
client_address = codes "10.0.0.1"

busy-Turns : Turns (server_run true true) busy
unfolding server_run loop_step ev_io_on_request on_connection find request_new request_parse
    callback unquote_url_inplace ev_io_on_read checked_read read_asserts after_parse_asserts
    run_asserts start_response wsgi_call_application
busy-Turns =
    turn_then at_start one_client busy
      (accept_turn (some (7, client_address)) true at_start one_client refl)
      (turn_then one_client two_clients busy
        (accept_turn (some (8, client_address)) true one_client two_clients refl)
        (turn_then two_clients busy busy
          (read_turn 7 surroundings (received 18 whole_get) new_client two_clients busy refl refl
            (inl refl) refl)
          (no_turn busy)))

loop-IsServing_example : IsServing busy
loop-IsServing_example = loop-IsServing true true busy busy-Turns

-- A client that comes after the interrupt is not accepted, one that is there is served on.
abbrev interrupted_client : Loop
interrupted_client = record {
  accepting = false;
  sigint = false;
  timer = false;
  connections = (8, new_client) ∷ [];
  interrupts = 1;
}

interrupt_once_example :
    IsStopping interrupted_client
    × (interrupted_client.interrupts ≡ two_clients.interrupts + 1)
    × (length interrupted_client.connections ≤ length two_clients.connections)
unfolding run_loop loop_step on_connection checked_read read_asserts ev_io_on_read close_connection
    request_new
interrupt_once_example =
    interrupt_once
      (client (some (9, client_address)) true
        ∷ readable 7 surroundings disconnected
        ∷ interrupt
        ∷ [])
      two_clients interrupted_client refl refl

shutdown_completes_example :
    (es : List Event) × (l' : Loop) × (run_loop (interrupt ∷ es) busy ≡ some l')
    × (has_ended l' ≡ true)
    × (l'.interrupts ≡ busy.interrupts + 1)
shutdown_completes_example = shutdown_completes surroundings true true busy busy-Turns refl
