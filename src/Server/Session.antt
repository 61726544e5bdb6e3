-- ===== src/Server/Session.antt =====
-- Requests and responses one after the other on a connection of bjoern/server.c that is kept alive.
use mathlib.Core.List.{flatten}
use bjoern.Common.{
  ◌>>=◌, ℕ, ◌<◌, ◌≤◌, ◌≡◌, ◌≢◌, refl, sym, ◌∙◌, ap, subst, Bool, true, Option, none, some, List, [],
  ◌∷◌, ◌++◌, map, Bytes, length, All, append_assoc, append-nil, inl, inr,
}
use bjoern.Python.{Application, Dict, Retval}
use bjoern.Request.Parse.{request_parse, environ_of, Event, HttpParser, Execution}
use bjoern.Request.Message.{Message, message_events}
use bjoern.Request.Events.{Decodes}
use bjoern.Request.Parts.{HasLength, IsQuiet}
use bjoern.Request.Environ.{wsgi_base_dict}
use bjoern.Response.{Fields}
use bjoern.Response.Body.{keeps_alive}
use bjoern.Response.Carrying.{responder, Carries}
use bjoern.Server.{Connection, reading}
use bjoern.Server.Read.{
  ReadResult, checked_read, read_asserts, Surroundings, received, read_would_block, ev_io_on_read,
}
use bjoern.Request.Prefix.{All-before, IsInside, message-IsInside}
use bjoern.Request.Frame.{request_parse-IsParsedFrom}
use bjoern.Server.Fresh.{IsReady, IsParsedFrom-IsFresh}
use bjoern.Server.Arrival.{
  checked_read_lem, IsSmooth, inner_read_asserts, last_run_asserts, read_asserts_lem, Arrives,
  nothing_yet, not_there, more_read,
}
use bjoern.Server.Client.{IsShort}
use bjoern.Server.Delivery.{run_writes}
use bjoern.Server.Ending.{Finishes, chances}
use bjoern.Server.Exchange.{request_arrived, message-IsSmooth, Presents, exchange}
use bjoern.Server.Answering.{answered_asserts, response_of}

-- A request, the reads that it arrives by, where `none` is a read that finds nothing, the parser at
-- its end, the response of the application, and the room in the socket at each call of the write
-- handler.
pub record Turn : Type 0 where
  pub message : Message
  pub outs : List Bytes
  pub reads : List (Option Execution)
  pub last : Execution
  pub http : HttpParser
  pub keeps : Bool
  pub status : Bytes
  pub fields : Fields
  pub value : Retval
  pub sent_chunks : List Bytes
  pub rooms : List ℕ

abbrev pub turn_env : Dict → (Dict → Application) → Turn → Surroundings
turn_env base app t = record { base = base; application = app; http = t.http; keeps = t.keeps }

abbrev pub response_to : Turn → Bytes
response_to t = response_of t.http t.keeps t.status t.fields t.sent_chunks

-- What a call of `read` finds.
abbrev pub read_of : Option Execution → ReadResult
read_of none = read_would_block
read_of (some x) = received x.parsed x

-- Reads one after the other; `none` where an assertion fails.
unfoldable pub read_all : Surroundings → List ReadResult → Connection → Option Connection
unfolding checked_read
read_all env [] c = some c
read_all env (result ∷ reads) c = do d ← checked_read env result c; read_all env reads d

abbrev pub reads_of : Turn → List ReadResult
reads_of t = map read_of t.reads ++ received t.last.parsed t.last ∷ []

-- The handlers of a turn, as the watcher waits for them.
unfoldable pub take_turn : Dict → (Dict → Application) → Turn → Connection → Option Connection
unfolding read_all
take_turn base app t c = do d ← read_all (turn_env base app t) (reads_of t) c; run_writes t.rooms d

unfoldable pub take_turns : Dict → (Dict → Application) → List Turn → Connection → Option Connection
unfolding take_turn
take_turns base app [] c = some c
take_turns base app (t ∷ ts) c = elim (take_turn base app t c) [
  | none ↦ none
  | some d ↦ take_turns base app ts d
]

abbrev pub FindsBytes : Option Execution → Type 0
FindsBytes none = Unit
FindsBytes (some x) = 0 < x.parsed

abbrev pub read_events : List (Option Execution) → List Event
read_events [] = []
read_events (none ∷ reads) = read_events reads
read_events (some x ∷ reads) = x.events ++ read_events reads

-- A request without an `Expect` header that the application answers, to whatever client, and time
-- enough to write the answer, behind which the connection is kept. A read finds bytes.
pub record IsTurn (app : Dict → Application) (t : Turn) : Type 0 where
  pub whole : read_events t.reads ++ t.last.events ≡ message_events t.message
  pub some_left : t.last.events ≢ []
  pub finds : All FindsBytes t.reads
  pub last_finds : 0 < t.last.parsed
  pub decodes : Decodes t.message.paths t.outs
  pub known : HasLength t.message.bodies
  pub quiet : All IsQuiet t.message.headers
  pub answers :
      (addr : Bytes) (e : Dict)
      → Presents t.message t.outs addr e
      → app e ≡ responder t.status t.fields t.value
  pub long : 3 ≤ length t.status
  pub carries : Carries t.value t.sent_chunks
  pub short : All IsShort t.sent_chunks
  pub enough : length (response_to t) < chances t.rooms
  pub kept : keeps_alive t.http t.keeps t.status t.fields ≡ true

read_all_step :
    (env : Surroundings) (result : ReadResult) (reads : List ReadResult) (c : Connection)
    → read_asserts env result c ≡ true
    → read_all env (result ∷ reads) c ≡ read_all env reads (ev_io_on_read env result c)
unfolding read_all
read_all_step env result reads c h =
    ap (λ o. o >>= read_all env reads) (checked_read_lem env result c h)

nothing_asserts : (env : Surroundings) (c : Connection) → read_asserts env read_would_block c ≡ true
unfolding read_asserts
nothing_asserts env c = refl

module _ (env : Surroundings) (c : Connection) (all : List Event) (ready : IsReady c.request)
    (smooth : IsSmooth env.base all c.request) (last_events : List Event) where
  -- The reads before the last one of a request: what is read behind them is read where they led to.
  inner_reads :
      (reads : List (Option Execution)) (es : List Event) (d : Connection) (more : List ReadResult)
      → Arrives env c es d
      → es ++ (read_events reads ++ last_events) ≡ all
      → All IsInside (es ++ read_events reads)
      → All FindsBytes reads
      → (d' : Connection) × (read_all env (map read_of reads ++ more) d ≡ read_all env more d')
        × Arrives env c (es ++ read_events reads) d'
  inner_reads [] es d more h e inside finds =
      (d, refl, subst (λ l. Arrives env c l d) (sym (append-nil es)) h)
  inner_reads (none ∷ reads) es d more h e inside finds =
      let next = ev_io_on_read env read_would_block d in
      let (d', same, h') = inner_reads reads es next more (not_there es d h) e inside finds.1 in
      (
        d',
        read_all_step env read_would_block (map read_of reads ++ more) d (nothing_asserts env d)
            ∙ same,
        h',
      )
  inner_reads (some x ∷ reads) es d more h e inside finds =
      let next = ev_io_on_read env (received x.parsed x) d in
      let later = read_events reads in
      let now = es ++ x.events in
      let split : (es ++ (x.events ++ later)) ≡ now ++ later =
        sym (append_assoc es x.events later) in
      let inside' = subst (All IsInside) split inside in
      let e' : now ++ (later ++ last_events) ≡ all =
        append_assoc es x.events (later ++ last_events)
        ∙ ap (λ l. es ++ l) (sym (append_assoc x.events later last_events))
        ∙ e in
      let asserts =
        inner_read_asserts env c all ready smooth es (later ++ last_events) x.parsed x d h e'
          (All-before IsInside now later inside') refl finds.0 in
      let (d', same, h') =
        inner_reads reads now next more (more_read x.parsed x es d h refl) e' inside' finds.1 in
      (
        d',
        read_all_step env (received x.parsed x) (map read_of reads ++ more) d asserts ∙ same,
        subst (λ l. Arrives env c l d') (sym split) h',
      )

-- The reads of a turn: no assertion fails, and the last of them is a call of the handler.
turn_reads :
    (address : Option (Bytes × Option Bytes)) (app : Dict → Application) (t : Turn) (c : Connection)
    → IsReady c.request
    → IsTurn app t
    → (let env = turn_env (wsgi_base_dict address) app t in
        (d : Connection) × Arrives env c (read_events t.reads) d
        × (read_all env (reads_of t) c
            ≡ some (ev_io_on_read env (received t.last.parsed t.last) d)))
unfolding read_all
turn_reads address app t c ready h =
    let base = wsgi_base_dict address in
    let env = turn_env base app t in
    let m = t.message in
    let es = read_events t.reads in
    let x = t.last in
    let smooth =
      message-IsSmooth base address m t.outs c.request ready refl h.decodes h.known h.quiet in
    let inside = message-IsInside m es x.events h.whole h.some_left in
    let (d, same, arrives) =
      inner_reads env c (message_events m) ready smooth x.events t.reads [] c
        (received x.parsed x ∷ []) nothing_yet h.whole inside h.finds in
    let asked =
      request_arrived env address m t.outs es x.parsed x c d ready refl arrives h.whole h.some_left
        refl h.decodes h.known h.quiet in
    let r = request_parse base x x.parsed d.request in
    let fresh =
      IsParsedFrom-IsFresh d.request r (request_parse-IsParsedFrom base x x.parsed d.request)
        asked.fresh in
    let asserts =
      read_asserts_lem env x.parsed x d r h.last_finds
        (last_run_asserts env c (message_events m) ready smooth es x d arrives h.whole inside) refl
        (answered_asserts env r t.status t.fields t.value t.sent_chunks fresh asked.ok
          asked.complete (h.answers c.request.client_addr (environ_of r.headers) asked.presents)
          h.long h.carries) in
    (d, arrives, same ∙ read_all_step env (received x.parsed x) [] d asserts)

-- A connection that reads, with nothing of a request read yet, and these bytes written.
pub record IsWaiting (stream : Bytes) (closed : ℕ) (c : Connection) : Type 0 where
  pub reads : c.watcher ≡ reading
  pub ready : IsReady c.request
  pub written : c.wire ≡ stream
  pub open_still : c.fd_closed ≡ closed

Finishes-IsWaiting :
    (stream : Bytes) (closed : ℕ) (res : Option Connection)
    → Finishes true stream closed res
    → (d : Connection) × (res ≡ some d) × IsWaiting stream closed d
Finishes-IsWaiting stream closed none h = absurd h
Finishes-IsWaiting stream closed (some d) (written, inl (k, w, fd, ready)) =
    (d, refl, record { reads = w; ready = ready; written = written; open_still = fd })
Finishes-IsWaiting stream closed (some d) (written, inr (k, w, fd)) = absurd (cc k)

turn_answered :
    (address : Option (Bytes × Option Bytes)) (app : Dict → Application) (t : Turn) (c : Connection)
    → IsReady c.request
    → IsTurn app t
    → (d : Connection) × (take_turn (wsgi_base_dict address) app t c ≡ some d)
      × IsWaiting (c.wire ++ response_to t) c.fd_closed d
unfolding take_turn
turn_answered address app t c ready h =
    let env = turn_env (wsgi_base_dict address) app t in
    let (d, arrives, read) = turn_reads address app t c ready h in
    let (finishes, reads) =
      exchange env address t.message t.outs (read_events t.reads) t.last.parsed t.last c d t.status
        t.fields t.value t.sent_chunks t.rooms [] ready refl arrives h.whole h.some_left refl
        h.decodes h.known h.quiet (h.answers c.request.client_addr) h.long h.carries h.short
        h.enough in
    let written =
      subst
        (λ k.
          Finishes k (c.wire ++ response_to t) c.fd_closed
            (run_writes t.rooms (ev_io_on_read env (received t.last.parsed t.last) d)))
        h.kept finishes in
    Finishes-IsWaiting _ _ _ (
      subst (Finishes true (c.wire ++ response_to t) c.fd_closed)
        (ap (λ o. o >>= run_writes t.rooms) (sym read)) written)

take_turns_step :
    (base : Dict) (app : Dict → Application) (t : Turn) (ts : List Turn) (c d : Connection)
    → take_turn base app t c ≡ some d
    → take_turns base app (t ∷ ts) c ≡ take_turns base app ts d
unfolding take_turns
take_turns_step base app t ts c d e =
    ap
      (λ o. elim o as (λ _. Option Connection) [
        | none ↦ none
        | some c' ↦ take_turns base app ts c'
      ])
      e

pub turns_answered :
    (address : Option (Bytes × Option Bytes)) (app : Dict → Application) (ts : List Turn)
    (c : Connection)
    → c.watcher ≡ reading
    → IsReady c.request
    → All (IsTurn app) ts
    → (d : Connection) × (take_turns (wsgi_base_dict address) app ts c ≡ some d)
      × IsWaiting (c.wire ++ flatten (map response_to ts)) c.fd_closed d
unfolding take_turns flatten
turns_answered address app [] c w ready h = (
  c,
  refl,
  record { reads = w; ready = ready; written = sym (append-nil c.wire); open_still = refl },
)
turns_answered address app (t ∷ ts) c w ready h =
    let base = wsgi_base_dict address in
    let (d, e, on) = turn_answered address app t c ready h.0 in
    let (d', e', on') = turns_answered address app ts d on.reads on.ready h.1 in
    (
      d',
      take_turns_step base app t ts c d e ∙ e',
      record {
        reads = on'.reads;
        ready = on'.ready;
        written =
            on'.written
            ∙ ap (λ s. s ++ flatten (map response_to ts)) on.written
            ∙ append_assoc c.wire (response_to t) (flatten (map response_to ts));
        open_still = on'.open_still ∙ on.open_still;
      },
    )
