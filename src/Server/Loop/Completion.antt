-- ===== src/Server/Loop/Completion.antt =====
-- How the event loop of bjoern/server.c comes to its end after an interrupt: every connection can
-- be served to its end.
use bjoern.Common.{
  ℕ, suc, zero, ◌+◌, ◌≡◌, ◌≢◌, ◌∙◌, refl, sym, ap, Bool, true, inl, inr, some, List, [], ◌∷◌, ◌++◌,
  length, arith,
}
use bjoern.Server.{stopped, Connection, continue_message}
use bjoern.Server.Read.{Surroundings}
use bjoern.Server.File.{file_io, left_of_file}
use bjoern.Server.FileDelivery.{file_delivery_ends}
use bjoern.Server.Ending.{chances, delivery_ends}
use bjoern.Server.Stream.{pending}
use bjoern.Server.Valid.{
  IsValid, is_reading, is_writing, is_sending_file, is_continuing, is_stopped,
}
use bjoern.Server.Continue.{continue_written}
use bjoern.Server.Loop.{
  Loop, server_run, Event, interrupt, run_loop, has_ended, put, ev_signal_on_sigint,
}
use bjoern.Server.Loop.Calls.{AllOf}
use bjoern.Server.Loop.Steps.{IsOpen, Turns, loop-IsServing}
use bjoern.Server.Loop.Ending.{
  Ends, Watcher-cases, stopped-Ends, reading-Ends, writing-Ends, run_writes-Ends, run_file-Ends,
  run_loop-cons, run_loop-append,
}
use bjoern.Server.Loop.Shutdown.{interrupted}

-- That many calls, each with room for a byte.
byte_by_byte : ℕ → List ℕ
byte_by_byte zero = []
byte_by_byte (suc n) = 1 ∷ byte_by_byte n

chances-byte_by_byte : (n : ℕ) → chances (byte_by_byte n) ≡ n
unfolding chances byte_by_byte
chances-byte_by_byte zero = refl
chances-byte_by_byte (suc n) = omega (arith, chances-byte_by_byte n)

IsValid-Ends : (env : Surroundings) (fd : ℕ) (c : Connection) → IsValid c → Ends fd c
IsValid-Ends env fd c (is_reading w fresh fd_open) = reading-Ends env fd c w
IsValid-Ends env fd c (is_writing w streaming fd_open) =
    let rooms = byte_by_byte (suc (length (pending c.request))) in
    let many = chances-byte_by_byte (suc (length (pending c.request))) in
    run_writes-Ends env fd _ (c.wire ++ pending c.request) c.fd_closed rooms c
      (delivery_ends rooms c w streaming (omega (arith, many)))
IsValid-Ends env fd c (is_sending_file w sending fd_open) =
    let left = left_of_file [] 0 c.request.current_chunk c.request.current_chunk_p in
    let rooms = byte_by_byte (suc (length left)) in
    let many = chances-byte_by_byte (suc (length left)) in
    run_file-Ends env fd [] 0 _ (c.wire ++ left) c.fd_closed rooms c
      (file_delivery_ends [] 0 rooms c w sending (omega (arith, many)))
IsValid-Ends env fd c (is_continuing w continuing fd_open) =
    let n = length continue_message in
    writing-Ends (file_io n [] 0 c.request) fd c _ w
      (continue_written n [] 0 c continuing (omega arith)) (reading-Ends env fd _ refl)
IsValid-Ends env fd c (is_stopped w fd_closed) = stopped-Ends fd c w

put_here :
    (fd : ℕ) (c : Connection) (cs : List (ℕ × Connection))
    → c.watcher ≢ stopped
    → put fd c cs ≡ (fd, c) ∷ cs
put_here fd c cs alive = elim (Watcher-cases c.watcher) [
  | inl w ↦ rw w refl
  | inr (inl w) ↦ rw w refl
  | inr (inr w) ↦ absurd (alive w)
]

at_first :
    (fd : ℕ) (c : Connection)
    → Ends fd c
    → (l : Loop) (cs : List (ℕ × Connection)) → l.connections ≡ put fd c cs
    → (es : List Event) × (run_loop es l ≡ some (record l { connections = cs }))
unfolding Ends
at_first fd c ends = ends

all_end :
    (env : Surroundings) (cs : List (ℕ × Connection)) (l : Loop)
    → l.connections ≡ cs
    → AllOf IsOpen cs
    → (es : List Event) × (run_loop es l ≡ some (record l { connections = [] }))
unfolding run_loop
all_end env [] l here all = ([], ap (λ x. some (record l { connections = x })) here)
all_end env ((fd, c) ∷ cs) l here all =
    let (es, first) =
      at_first fd c (IsValid-Ends env fd c all.0.0) l cs (here ∙ sym (put_here fd c cs all.0.1)) in
    let m = record l { connections = cs } in
    let (fs, rest) = all_end env cs m refl all.1 in
    (es ++ fs, run_loop-append es fs l m _ first rest)

-- Once an interrupt has reached a loop that watches for it, there are events after which the loop
-- has ended, with one more interrupt to raise, whatever responses its connections were in the
-- middle of: from every loop that the event loop reaches by calls for any of its connections in any
-- order, under what `loop-IsServing` wants of them.
pub shutdown_completes :
    (env : Surroundings) (signals sigint : Bool) (l : Loop)
    → Turns (server_run signals sigint) l
    → l.sigint ≡ true
    → (es : List Event) × (l' : Loop) × (run_loop (interrupt ∷ es) l ≡ some l')
      × (has_ended l' ≡ true)
      × (l'.interrupts ≡ l.interrupts + 1)
unfolding has_ended
shutdown_completes env signals sigint l turns watched =
    let m = ev_signal_on_sigint l in
    let (es, ended) = all_end env l.connections m refl (loop-IsServing signals sigint l turns) in
    (es, _, run_loop-cons interrupt es l m (interrupted l watched) ended, refl, refl)
