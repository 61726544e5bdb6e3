-- ===== src/Server/Arrival.antt =====
-- The bytes of a request of bjoern/server.c that come in by several calls of `ev_io_on_read`.
use bjoern.Common.{
  some, ltb, ◌&&◌, ◌<◌, arith, ℕ, ◌≡◌, refl, sym, ◌∙◌, ap, subst, true, false, Option, none, List,
  [], ◌++◌, All, ◌==◌, if◌then◌else◌, ==_iff, append_assoc, append-nil,
}
use bjoern.Python.{Dict}
use bjoern.Request.{Request, two_bits, bad_request}
use bjoern.Request.Parse.{run_asserts, Event, Execution, request_parse, run_callbacks, nparsed}
use bjoern.Request.Events.{Runs, Runs-nil, Runs-append, Runs-whole}
use bjoern.Request.Prefix.{All-before, Runs-then, not_finished_yet, no_error_yet, IsInside}
use bjoern.Request.Frame.{request_parse-IsParsedFrom}
use bjoern.Server.{Connection}
use bjoern.Server.Read.{
  checked_read, read_asserts, after_parse_asserts, Surroundings, received, read_would_block,
  ev_io_on_read, after_parse, read_switch, ReadResult,
}
use bjoern.Server.Fresh.{IsReady, IsFresh, IsParsedFrom-IsFresh}

-- The callbacks that reads have made since `c`: each read takes all that it is given; nothing may
-- be there to read.
pub data Arrives (env : Surroundings) (c : Connection) : List Event → Connection → Type 0 where
  nothing_yet : Arrives env c [] c
  not_there :
      (es : List Event) (d : Connection)
      → Arrives env c es d
      → Arrives env c es (ev_io_on_read env read_would_block d)
  more_read :
      (n : ℕ) (x : Execution) (es : List Event) (d : Connection)
      → Arrives env c es d
      → x.parsed ≡ n
      → Arrives env c (es ++ x.events) (ev_io_on_read env (received n x) d)

-- Bytes that the parser takes to their end, and makes these callbacks for, none of which fails.
pub request_parse_whole :
    (base : Dict) (x : Execution) (n : ℕ) (r r' : Request)
    → x.parsed ≡ n
    → run_callbacks base x.events 0 r ≡ (r', none)
    → request_parse base x n r ≡ r'
unfolding request_parse
request_parse_whole base x n r r' parsed went =
    let whole : (nparsed x (run_callbacks base x.events 0 r).1 == n) ≡ true =
      ap (λ (p : Request × Option ℕ). nparsed x p.1 == n) went ∙ (==_iff x.parsed n).1 parsed in
    ap
      (λ b.
        if b
        then (run_callbacks base x.events 0 r).0
        else record ((run_callbacks base x.events 0 r).0) {
          state = record ((run_callbacks base x.events 0 r).0.state) {
            error_code = two_bits bad_request;
          };
        })
      whole
    ∙ ap (λ (p : Request × Option ℕ). p.0) went

-- Such a read of the inside of a request is read on from.
unfinished_read :
    (env : Surroundings) (r : Request) (c : Connection)
    → r.state.error_code ≡ 0
    → r.state.parse_finished ≡ false
    → r.state.expect_continue ≡ false
    → (let (r', state) = after_parse env r in read_switch state (record c { request = r' }))
      ≡ record c { request = r }
unfolding after_parse
unfinished_read env r c ok going quiet = rw ok (rw going (rw quiet refl))

-- Where the request stands after such reads.
pub record IsArriving (env : Surroundings) (es : List Event) (c d : Connection) : Type 0 where
  pub same_connection : d ≡ record c { request = d.request }
  pub runs : Runs env.base es c.request d.request
  pub fresh : IsFresh d.request

-- A sequence of callbacks for a request that leaves no error, and no wait for `100 Continue` on the
-- way, and in which no assertion fails.
pub record IsSmooth (base : Dict) (all : List Event) (r : Request) : Type 0 where
  pub went : (run_callbacks base all 0 r).1 ≡ none
  pub ok : (run_callbacks base all 0 r).0.state.error_code ≡ 0
  pub quiet :
      (es fs : List Event) (r' : Request)
      → es ++ fs ≡ all
      → Runs base es r r'
      → r'.state.expect_continue ≡ false
  pub asserts :
      (es now fs : List Event) (r' : Request)
      → es ++ (now ++ fs) ≡ all
      → Runs base es r r'
      → run_asserts base now r' ≡ true

unfinished_asserts :
    (env : Surroundings) (r : Request)
    → r.state.error_code ≡ 0
    → r.state.parse_finished ≡ false
    → after_parse_asserts env r ≡ true
unfolding after_parse_asserts
unfinished_asserts env r ok going = rw ok (rw going refl)

-- The assertions of a read are those of the parser and those behind it.
pub read_asserts_lem :
    (env : Surroundings) (n : ℕ) (x : Execution) (d : Connection) (r : Request)
    → 0 < n
    → run_asserts env.base x.events d.request ≡ true
    → request_parse env.base x n d.request ≡ r
    → after_parse_asserts env r ≡ true
    → read_asserts env (received n x) d ≡ true
unfolding read_asserts
read_asserts_lem env n x d r pos ran parse behind =
    let some_bytes : ltb 0 n ≡ true = ground arith in
    ap
      (λ b.
        (b && run_asserts env.base x.events d.request)
        && after_parse_asserts env (request_parse env.base x n d.request))
      some_bytes
    ∙ ap (λ b. b && after_parse_asserts env (request_parse env.base x n d.request)) ran
    ∙ ap (after_parse_asserts env) parse
    ∙ behind

pub checked_read_lem :
    (env : Surroundings) (result : ReadResult) (c : Connection)
    → read_asserts env result c ≡ true
    → checked_read env result c ≡ some (ev_io_on_read env result c)
unfolding checked_read
checked_read_lem env result c h = ap (λ b. if b then some (ev_io_on_read env result c) else none) h

module _ (env : Surroundings) (c : Connection) (all : List Event) (ready : IsReady c.request)
    (smooth : IsSmooth env.base all c.request) where
  -- A read behind others, of callbacks of which none fails.
  parsed_on :
      (es fs : List Event) (n : ℕ) (x : Execution) (d : Connection)
      → IsArriving env es c d
      → (es ++ x.events) ++ fs ≡ all
      → x.parsed ≡ n
      → (r' : Request) × (request_parse env.base x n d.request ≡ r')
        × Runs env.base (es ++ x.events) c.request r'
  parsed_on es fs n x d h e parsed =
      let base = env.base in
      let went = ap (λ l. (run_callbacks base l 0 c.request).1) e ∙ smooth.went in
      let (r', more) = Runs-then base es x.events fs c.request d.request h.runs went in
      (
        r',
        request_parse_whole base x n d.request r' parsed
            (Runs-whole base x.events d.request r' more),
        Runs-append base es x.events c.request d.request r' h.runs more,
      )

  -- A request that is not at its end: the reads leave the connection to go on with it, with what
  -- the callbacks made so far.
  arrives_lem :
      (es fs : List Event) (d : Connection)
      → Arrives env c es d
      → es ++ fs ≡ all
      → All IsInside es
      → IsArriving env es c d
  unfolding ev_io_on_read
  arrives_lem _ fs _ nothing_yet e inside = record {
    same_connection = refl;
    runs = Runs-nil env.base c.request;
    fresh = ready.fresh;
  }
  arrives_lem _ fs _ (not_there es d before) e inside =
      let h = arrives_lem es fs d before e inside in
      record { same_connection = h.same_connection; runs = h.runs; fresh = h.fresh }
  arrives_lem _ fs _ (more_read n x es d before parsed) e inside =
      let base = env.base in
      let now = es ++ x.events in
      let h =
        arrives_lem es (x.events ++ fs) d before (sym (append_assoc es x.events fs) ∙ e)
          (All-before IsInside es x.events inside) in
      let ok = ap (λ l. (run_callbacks base l 0 c.request).0.state.error_code) e ∙ smooth.ok in
      let (r', parse, runs) = parsed_on es fs n x d h e parsed in
      let same =
        ap
          (λ p.
            (let (r'', state) = after_parse env p in
              read_switch state (record d { request = r'' })))
          parse
        ∙ unfinished_read env r' d (no_error_yet base now fs c.request r' runs ok)
            (not_finished_yet base now c.request r' inside runs ∙ ready.unfinished)
            (smooth.quiet now fs r' e runs) in
      record {
        same_connection =
            same
            ∙ ap (λ (b : Connection). record b { request = r' }) h.same_connection
            ∙ ap (λ (b : Connection). record c { request = b.request }) (sym same);
        runs = subst (λ (b : Connection). Runs base now c.request b.request) (sym same) runs;
        fresh =
            subst (λ (b : Connection). IsFresh b.request) (sym same)
              (subst IsFresh parse (
                IsParsedFrom-IsFresh d.request (request_parse base x n d.request)
                  (request_parse-IsParsedFrom base x n d.request) h.fresh));
      }

  -- The read behind them, of the rest of the request.
  pub last_read :
      (es : List Event) (n : ℕ) (x : Execution) (d : Connection)
      → Arrives env c es d
      → All IsInside es
      → x.parsed ≡ n
      → es ++ x.events ≡ all
      → IsArriving env es c d
        × (request_parse env.base x n d.request ≡ (run_callbacks env.base all 0 c.request).0)
  last_read es n x d before inside parsed e =
      let base = env.base in
      let r = c.request in
      let h = arrives_lem es x.events d before e inside in
      let (r', parse, runs) = parsed_on es [] n x d h (append-nil (es ++ x.events) ∙ e) parsed in
      (
        h,
        parse
            ∙ ap (λ (p : Request × Option ℕ). p.0)
                (sym (Runs-whole base (es ++ x.events) r r' runs))
            ∙ ap (λ l. (run_callbacks base l 0 r).0) e,
      )

  -- No assertion of any of these reads fails.
  pub inner_read_asserts :
      (es fs : List Event) (n : ℕ) (x : Execution) (d : Connection)
      → Arrives env c es d
      → (es ++ x.events) ++ fs ≡ all
      → All IsInside (es ++ x.events)
      → x.parsed ≡ n
      → 0 < n
      → read_asserts env (received n x) d ≡ true
  inner_read_asserts es fs n x d before e inside parsed pos =
      let base = env.base in
      let now = es ++ x.events in
      let e' = sym (append_assoc es x.events fs) ∙ e in
      let h =
        arrives_lem es (x.events ++ fs) d before e' (All-before IsInside es x.events inside) in
      let ok = ap (λ l. (run_callbacks base l 0 c.request).0.state.error_code) e ∙ smooth.ok in
      let (r', parse, runs) = parsed_on es fs n x d h e parsed in
      read_asserts_lem env n x d r' pos (smooth.asserts es x.events fs d.request e' h.runs) parse (
        unfinished_asserts env r' (no_error_yet base now fs c.request r' runs ok)
          (not_finished_yet base now c.request r' inside runs ∙ ready.unfinished))

  -- Nor one of the last of them in the parser.
  pub last_run_asserts :
      (es : List Event) (x : Execution) (d : Connection)
      → Arrives env c es d
      → es ++ x.events ≡ all
      → All IsInside es
      → run_asserts env.base x.events d.request ≡ true
  last_run_asserts es x d before e inside =
      let h = arrives_lem es x.events d before e inside in
      smooth.asserts es x.events [] d.request (ap (λ l. es ++ l) (append-nil x.events) ∙ e) h.runs
