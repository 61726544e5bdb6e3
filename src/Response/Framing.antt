-- ===== src/Response/Framing.antt =====
-- `wsgi_call_application` of bjoern/wsgi.c: the request that it hands to bjoern/server.c, for an
-- application that may do anything.
use bjoern.Common.{
  sym, ap, subst, inl, inr, [], ◌≤◌, ◌<◌, ◌≡◌, ◌⊎◌, refl, Bool, true, false, Option, none, some,
  ◌++◌, Bytes, length, arith,
}
use bjoern.Python.{Retval, Application}
use bjoern.Request.{Request, Headers, null, environ, response, Chunk, chunk}
use bjoern.Request.Parse.{HttpParser}
use bjoern.Chunk.{wrap_http_chunk_cruft_around}
use bjoern.Response.{
  with_first, First, first_chunk, no_first_chunk, broken, run_application, open_retval,
  decide_keep_alive, start_sending, answer, open_result, wsgi_call_application, response_head,
  Fields, status_of,
}
use bjoern.Response.Start.{IsLive}
use bjoern.Response.Starting.{
  NoResponse, HasStatus, IsStarting, run_application-IsStarting, open_retval-IsStarting,
}

-- The chunk begins with a response head for some status of three bytes or more.
abbrev pub BeginsWithHead : Chunk → Bool → Bool → Type 0
BeginsWithHead (chunk s) keep_alive chunked =
    (status : Bytes) × (fields : Fields) × (rest : Bytes) × (s
      ≡ response_head status fields keep_alive chunked ++ rest)
    × (3 ≤ length status)
BeginsWithHead _ keep_alive chunked = ⊥

-- What the application has stored and opened when it is done: its status and headers in the
-- request, and the first chunk of its body.
abbrev pub opened : Request × Option Retval → Request × First
opened (r, none) = (r, broken)
opened (r, some v) = open_retval v r

abbrev pub opened_by : Application → Request → Request × First
opened_by app r = opened (run_application app (record r { headers = null }))

-- How a body begins, as one chunk of a chunked response or as it is.
abbrev pub BodyBegins : Bool → First → Bytes → Type 0
BodyBegins true (first_chunk c) bytes = bytes ≡ wrap_http_chunk_cruft_around c
BodyBegins false (first_chunk c) bytes = bytes ≡ c
BodyBegins chunked no_first_chunk bytes = bytes ≡ []
BodyBegins chunked broken bytes = ⊥

-- The chunk is the head for the status and the headers that the application stored, and behind it
-- the beginning of its body.
abbrev pub Sends : Request × First → Request → Type 0
Sends (o, first) r =
    (status : Bytes) × (fields : Fields) × (begin : Bytes) × (o.status ≡ some status)
    × (o.headers ≡ response fields)
    × (r.current_chunk
        ≡ chunk (response_head status fields r.state.keep_alive r.state.chunked_response ++ begin))
    × BodyBegins r.state.chunked_response first begin
    × (3 ≤ length status)

pub Sends-BeginsWithHead :
    (o : Request × First) (r : Request)
    → Sends o r
    → BeginsWithHead r.current_chunk r.state.keep_alive r.state.chunked_response
Sends-BeginsWithHead (o, first) r (status, fields, begin, s, h, e, body, long) =
    subst (λ c. BeginsWithHead c r.state.keep_alive r.state.chunked_response) (sym e)
      (status, fields, begin, refl, long)

-- The application raised, or its value cannot be iterated over, or there are no headers.
abbrev pub Fails : Request × First → Type 0
Fails (o, first) = (first ≡ broken) ⊎ NoResponse o.headers

-- A response that may be sent, for what the application stored and opened.
pub record IsAnswer (http : HttpParser) (keeps : Bool) (o : Request × First) (r : Request)
    : Type 0 where
  pub live : IsLive r
  pub silent : r.state.expect_continue ≡ false
  pub at_start : r.current_chunk_p ≡ 0
  pub sends : Sends o r
  -- a connection is kept only if the response is chunked or counts as one of a known length
  pub delimited :
      (r.state.keep_alive ≡ false)
      ⊎ ((r.state.chunked_response ≡ true) ⊎ (r.state.response_length_unknown ≡ false))
  -- and only if the client asked for that
  pub wanted : (r.state.keep_alive ≡ false) ⊎ (keeps ≡ true)
  -- chunks are sent only to a client of HTTP/1.1, and in place of a content length
  pub chunked_only :
      (r.state.chunked_response ≡ false)
      ⊎ ((r.state.response_length_unknown ≡ true)
          × (r.state.keep_alive ≡ true)
          × (0 < http.http_major)
          × (0 < http.http_minor))

-- What `wsgi_call_application` returns: an answer, or a failure that leaves no chunked response.
abbrev pub IsResult : HttpParser → Bool → Request × First → Request × Bool → Type 0
IsResult http keeps o (r, true) = IsAnswer http keeps o r
IsResult http keeps o (r, false) =
    Fails o
    × (r.state.chunked_response ≡ false)
    × (r.state.expect_continue ≡ false)
    × (r.current_chunk_p ≡ 0)

IsAnswer-start_sending :
    (http : HttpParser) (keeps : Bool) (first : First) (fields : Fields) (s : Bytes) (r : Request)
    → ((chunked : Bool) → BodyBegins chunked first (with_first chunked first))
    → r.headers ≡ response fields
    → r.status ≡ some s
    → 3 ≤ length s
    → r.state.start_response_called ≡ true
    → IsStarting r
    → IsAnswer http keeps (r, first) (start_sending http keeps first (response fields) r).0
unfolding decide_keep_alive
IsAnswer-start_sending http keeps first fields s r begins stored e l called h =
    let state = (start_sending http keeps first (response fields) r).0.state in
    let begin = with_first state.chunked_response first in
    record {
      live = record { called = called; answered = refl };
      silent = h.no_expect;
      at_start = refl;
      sends = (
        s,
        fields,
        begin,
        e,
        stored,
        ap
            (λ o.
              chunk (
                response_head (status_of o) fields state.keep_alive state.chunked_response
                ++ begin))
            e,
        begins state.chunked_response,
        l,
      );
      delimited = ground arith;
      wanted = ground arith;
      chunked_only = ground arith;
    }

-- The check of `request->headers`, with the headers and the status at hand.
IsResult-start_sending :
    (http : HttpParser) (keeps : Bool) (first : First) (h : Headers) (status : Option Bytes)
    (r : Request)
    → ((chunked : Bool) → BodyBegins chunked first (with_first chunked first))
    → r.headers ≡ h
    → r.status ≡ status
    → HasStatus h status r.state.start_response_called
    → IsStarting r
    → IsResult http keeps (r, first) (start_sending http keeps first h r)
IsResult-start_sending http keeps first null status r begins stored e s h =
    (inr (subst NoResponse (sym stored) tt), h.chunked_off, h.no_expect, h.at_start)
IsResult-start_sending http keeps first (environ d) status r begins stored e s h =
    (inr (subst NoResponse (sym stored) tt), h.chunked_off, h.no_expect, h.at_start)
IsResult-start_sending http keeps first (response fields) none r begins stored e s h = absurd s
IsResult-start_sending http keeps first (response fields) (some status) r begins stored e s h =
    IsAnswer-start_sending http keeps first fields status r begins stored e s.0 s.1 h

no_first_chunk-BodyBegins : (chunked : Bool) → BodyBegins chunked no_first_chunk []
no_first_chunk-BodyBegins true = refl
no_first_chunk-BodyBegins false = refl

first_chunk-BodyBegins :
    (c : Bytes) (chunked : Bool)
    → BodyBegins chunked (first_chunk c) (with_first chunked (first_chunk c))
first_chunk-BodyBegins c true = refl
first_chunk-BodyBegins c false = refl

IsResult-answer :
    (http : HttpParser) (keeps : Bool) (res : Request × First)
    → IsStarting res.0
    → IsResult http keeps res (answer http keeps res)
IsResult-answer http keeps (r, broken) h = (inl refl, h.chunked_off, h.no_expect, h.at_start)
IsResult-answer http keeps (r, no_first_chunk) h =
    IsResult-start_sending http keeps no_first_chunk r.headers r.status r no_first_chunk-BodyBegins
      refl refl h.has_status h
IsResult-answer http keeps (r, first_chunk c) h =
    IsResult-start_sending http keeps (first_chunk c) r.headers r.status r
      (first_chunk-BodyBegins c) refl refl h.has_status h

IsResult-open_result :
    (http : HttpParser) (keeps : Bool) (res : Request × Option Retval)
    → IsStarting res.0
    → IsResult http keeps (opened res) (open_result http keeps res)
IsResult-open_result http keeps (r, none) h = (inl refl, h.chunked_off, h.no_expect, h.at_start)
IsResult-open_result http keeps (r, some v) h =
    IsResult-answer http keeps (open_retval v r) (open_retval-IsStarting v r h)

pub wsgi_call_application-IsResult :
    (http : HttpParser) (keeps : Bool) (app : Application) (r : Request)
    → r.state.chunked_response ≡ false
    → r.state.wsgi_call_done ≡ false
    → r.state.expect_continue ≡ false
    → r.current_chunk_p ≡ 0
    → IsResult http keeps (opened_by app r) (wsgi_call_application http keeps app r)
unfolding wsgi_call_application
wsgi_call_application-IsResult http keeps app r off open_call quiet start =
    IsResult-open_result http keeps (run_application app (record r { headers = null })) (
      run_application-IsStarting app (record r { headers = null })
        (record {
          chunked_off = off;
          not_done = open_call;
          no_expect = quiet;
          at_start = start;
          has_status = tt;
        }))
