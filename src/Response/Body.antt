-- ===== src/Response/Body.antt =====
-- The response to an application that calls `start_response` once and hands over its whole body:
-- what `wsgi_call_application` of bjoern/wsgi.c makes of it.
use bjoern.Common.{
  ◌≤◌, ◌≡◌, refl, ◌∙◌, ap, Bool, true, false, not, ◌&&◌, ◌||◌, Option, some, List, ◌++◌, Bytes,
  length, ltb, if◌then◌else◌,
}
use bjoern.Python.{Iter, Retval}
use bjoern.Request.{Request, null, response, chunk, Iterable}
use bjoern.Request.Parse.{HttpParser}
use bjoern.Response.{
  Fields, First, broken, first_chunk, no_first_chunk, open_retval, is_bodiless, decide_keep_alive,
  response_head, with_first, run_application, open_result, answer, start_sending, status_of,
  wsgi_call_application,
}
use bjoern.Response.Carrying.{
  responder, has_length, Carries, filled, responded, start_response-responded, Splits, IsNoFile,
  Carries-Opened,
}

-- How the response is framed: whether the connection is kept, and whether the body is chunked.
abbrev pub knows_length : Bytes → Fields → Bool
knows_length status fields = has_length fields || is_bodiless status

abbrev pub is_new : HttpParser → Bool
is_new http = ltb 0 http.http_major && ltb 0 http.http_minor

abbrev pub keeps_alive : HttpParser → Bool → Bytes → Fields → Bool
keeps_alive http keeps status fields = keeps && (knows_length status fields || is_new http)

abbrev pub is_chunked : HttpParser → Bool → Bytes → Fields → Bool
is_chunked http keeps status fields = keeps && (not (knows_length status fields) && is_new http)

-- The request that is to be sent.
abbrev pub answered :
    HttpParser → Bool → Bytes → Fields → Iterable → Option Iter → First → Request → Request
answered http keeps status fields it left first r =
    let keep = keeps_alive http keeps status fields in
    let chunked = is_chunked http keeps status fields in
    record r {
      status = some status;
      headers = response fields;
      iterable = it;
      iterator = left;
      current_chunk = chunk (response_head status fields keep chunked ++ with_first chunked first);
      current_chunk_p = 0;
      state = record (r.state) {
        response_length_unknown = not (knows_length status fields);
        start_response_called = true;
        chunked_response = chunked;
        keep_alive = keep;
        wsgi_call_done = true;
      };
    }

not-or : (h b : Bool) → (not h && not b) ≡ not (h || b)
not-or true b = refl
not-or false true = refl
not-or false false = refl

chunked_lem :
    (k u n : Bool)
    → (if k then (if u then (if n then true else false) else false) else false) ≡ (k && (u && n))
chunked_lem false u n = refl
chunked_lem true false n = refl
chunked_lem true true false = refl
chunked_lem true true true = refl

kept_lem : (k w n : Bool) → (k && (not (not w) || n)) ≡ (k && (w || n))
kept_lem k true n = refl
kept_lem k false n = refl

framed : Request → Bool → Bool → Bool → Request
framed r unknown chunked keep = record r {
  state = record (r.state) {
    response_length_unknown = unknown;
    chunked_response = chunked;
    keep_alive = keep;
  };
}

decide_lem :
    (http : HttpParser) (keeps : Bool) (status : Bytes) (fields : Fields) (r : Request)
    → r.state.response_length_unknown ≡ not (has_length fields)
    → r.state.chunked_response ≡ false
    → decide_keep_alive http keeps status r
      ≡ framed r
          (not (knows_length status fields))
          (is_chunked http keeps status fields)
          (keeps_alive http keeps status fields)
unfolding decide_keep_alive framed
decide_lem http keeps status fields r unknown off =
    let known = knows_length status fields in
    let n = is_new http in
    let decided = λ (u : Bool) (o : Bool).
      framed r u (if keeps then (if u then (if n then true else o) else o) else o)
        (keeps && (not u || n)) in
    let u : (r.state.response_length_unknown && not (is_bodiless status)) ≡ not known =
      ap (λ b. b && not (is_bodiless status)) unknown
      ∙ not-or (has_length fields) (is_bodiless status) in
    ap (λ x. decided x r.state.chunked_response) u
    ∙ ap (decided (not known)) off
    ∙ ap (λ c. framed r (not known) c (keeps && (not (not known) || n)))
        (chunked_lem keeps (not known) n)
    ∙ ap (framed r (not known) (keeps && (not known && n))) (kept_lem keeps known n)

call_opened :
    (http : HttpParser) (keeps : Bool) (status : Bytes) (fields : Fields) (v : Retval) (r : Request)
    → r.state.start_response_called ≡ false
    → 3 ≤ length status
    → wsgi_call_application http keeps (responder status fields v) r
      ≡ answer http keeps (open_retval v (responded status fields (record r { headers = null })))
unfolding wsgi_call_application run_application
call_opened http keeps status fields v r first long =
    ap (λ (p : Request × Bool). open_result http keeps (p.0, some v))
      (start_response-responded status fields (record r { headers = null }) first long)

sent_as : Bytes → Fields → First → Request → Request
sent_as status fields first r = record r {
  state = record (r.state) { wsgi_call_done = true };
  current_chunk = chunk (
      response_head status fields r.state.keep_alive r.state.chunked_response
      ++ with_first r.state.chunked_response first);
  current_chunk_p = 0;
}

IsThere : First → Type 0
IsThere broken = ⊥
IsThere _ = Unit

not_broken :
    (fs : List Bytes) (first : First) (left : Option Iter) → Splits fs first left → IsThere first
unfolding IsThere
not_broken fs (first_chunk c) left h = tt
not_broken fs no_first_chunk left h = tt
not_broken fs broken left h = h

answer_there :
    (http : HttpParser) (keeps : Bool) (first : First) (r : Request)
    → IsThere first
    → answer http keeps (r, first) ≡ start_sending http keeps first r.headers r
unfolding IsThere
answer_there http keeps (first_chunk c) r h = refl
answer_there http keeps no_first_chunk r h = refl
answer_there http keeps broken r h = absurd h

sending :
    (http : HttpParser) (keeps : Bool) (status : Bytes) (fields : Fields) (first : First)
    (r : Request)
    → r.headers ≡ response fields
    → r.status ≡ some status
    → decide_keep_alive http keeps status r
      ≡ framed r
          (not (knows_length status fields))
          (is_chunked http keeps status fields)
          (keeps_alive http keeps status fields)
    → IsThere first
    → answer http keeps (r, first) ≡ (
      sent_as status fields first (
          framed r
            (not (knows_length status fields))
            (is_chunked http keeps status fields)
            (keeps_alive http keeps status fields)),
      true,
    )
unfolding sent_as
sending http keeps status fields first r h s decided there =
    answer_there http keeps first r there
    ∙ ap (λ x. start_sending http keeps first x r) h
    ∙ ap
        (λ x.
          (sent_as (status_of x) fields first (decide_keep_alive http keeps (status_of x) r), true))
        s
    ∙ ap (λ x. (sent_as status fields first x, true)) decided

-- An application that calls `start_response` once, with a status of three bytes or more and a list
-- of pairs of texts, and returns a body: the call succeeds, and what is to be sent is a head with
-- that status and those fields, and the body, framed as the two decide.
pub wsgi_call_application-answered :
    (http : HttpParser) (keeps : Bool) (status : Bytes) (fields : Fields) (v : Retval)
    (cs : List Bytes) (r : Request)
    → r.state.start_response_called ≡ false
    → r.state.chunked_response ≡ false
    → 3 ≤ length status
    → Carries v cs
    → (it : Iterable) × (left : Option Iter) × (first : First) × (wsgi_call_application http keeps
          (responder status fields v)
          r
        ≡ (answered http keeps status fields it left first r, true))
      × IsNoFile it
      × Splits (filled cs) first left
unfolding framed sent_as
wsgi_call_application-answered http keeps status fields v cs r once off long carries =
    let r1 = responded status fields (record r { headers = null }) in
    let o = Carries-Opened v cs r1 carries in
    let r2 = record r1 { iterable = o.iterable; iterator = o.left } in
    let sent =
      sending http keeps status fields o.first r2 refl refl
        (decide_lem http keeps status fields r2 refl off)
        (not_broken (filled cs) o.first o.left o.splits) in
    (
      o.iterable,
      o.left,
      o.first,
      call_opened http keeps status fields v r once long ∙ ap (answer http keeps) o.result ∙ sent,
      o.no_file,
      o.splits,
    )
