-- ===== src/Request/Message.antt =====
-- A whole request as the parser delivers it to the callbacks of bjoern/request.c, every part of it
-- in pieces, and the request that the callbacks make of it.
use mathlib.Core.List.{flatten}
use bjoern.Common.{
  ◌≡◌, ◌≢◌, refl, ◌∙◌, ap, Bool, true, false, Option, none, some, List, [], ◌∷◌, ◌++◌, map, Bytes,
  arith, codes, bytes_eq, bytes_eq_iff, if◌then◌else◌, Bool-cases, inl, inr,
}
use bjoern.Python.{Dict}
use bjoern.Request.{Request, Parser, environ}
use bjoern.Request.Parse.{
  HttpParser, Event, message_begin, path, query_string, header_field, header_value,
  message_complete, on_header_field, on_header_value, http_prefix, field_processed, check_expect,
  value_of_field,
}
use bjoern.Request.Header.{
  Named, first_name, value_kept, value_step, deliver_name, deliver_value, deliver_header,
  store_header,
}
use bjoern.Request.Events.{Runs, Runs-append, name-Runs, value-Runs}
use bjoern.Request.Body.{body_events}

-- A header in pieces, one at least for its name and one for its value.
pub record HeaderPieces : Type 0 where
  pub name : Bytes
  pub names : List Bytes
  pub value : Bytes
  pub values : List Bytes

-- A request: the pieces of its path, its query, its headers and its body, those of the body with
-- the parser's fields at that time, and the fields at its headers and its end, where the length
-- that is left is not read.
pub record Message : Type 0 where
  pub paths : List Bytes
  pub queries : List Bytes
  pub headers : List HeaderPieces
  pub bodies : List (HttpParser × Bytes)
  pub http : HttpParser

abbrev pub whole_header : HeaderPieces → Bytes × Bytes
whole_header h = (flatten (h.name ∷ h.names), flatten (h.value ∷ h.values))

-- The callbacks of a request.
abbrev pub header_events : HttpParser → HeaderPieces → List Event
header_events http h =
    map header_field (h.name ∷ h.names) ++ map (header_value http) (h.value ∷ h.values)

abbrev pub headers_events : HttpParser → List HeaderPieces → List Event
headers_events http [] = []
headers_events http (h ∷ hs) = header_events http h ++ headers_events http hs

abbrev pub message_events : Message → List Event
message_events m =
    message_begin
    ∷ (map path m.paths
        ++ (map query_string m.queries
            ++ (headers_events m.http m.headers
                ++ (body_events m.bodies ++ message_complete m.http ∷ []))))

-- What the callbacks make of a header.
abbrev pub deliver : HttpParser → HeaderPieces → Request → Request
deliver http h r = deliver_value http (h.value ∷ h.values) (deliver_name (h.name ∷ h.names) r)

pub header-Runs :
    (base : Dict) (http : HttpParser) (h : HeaderPieces) (r : Request)
    → Runs base (header_events http h) r (deliver http h r)
header-Runs base http h r =
    let r1 = deliver_name (h.name ∷ h.names) r in
    Runs-append base (map header_field (h.name ∷ h.names))
      (map (header_value http) (h.value ∷ h.values)) r r1 (deliver http h r)
      (name-Runs base (h.name ∷ h.names) r) (value-Runs base http (h.value ∷ h.values) r1)

-- What a callback for a header leaves as it was.
pub record SameClient (r r' : Request) : Type 0 where
  pub same_addr : r'.client_addr ≡ r.client_addr
  pub same_finished : r'.state.parse_finished ≡ r.state.parse_finished

pub SameClient-trans : (r s t : Request) → SameClient r s → SameClient s t → SameClient r t
SameClient-trans r s t p q = record {
  same_addr = q.same_addr ∙ p.same_addr;
  same_finished = q.same_finished ∙ p.same_finished;
}

deliver_name-SameClient : (pieces : List Bytes) (r : Request) → SameClient r (deliver_name pieces r)
unfolding deliver_name on_header_field
deliver_name-SameClient [] r = record { same_addr = refl; same_finished = refl }
deliver_name-SameClient (piece ∷ pieces) r =
    let r' = (on_header_field piece r).0 in
    SameClient-trans r r' (deliver_name pieces r')
      (record { same_addr = refl; same_finished = refl }) (deliver_name-SameClient pieces r')

value_of_field_keeps :
    (http : HttpParser) (value : Bytes) (field : Option Bytes) (r : Request)
    → SameClient r (value_of_field http value field r)
      × ((value_of_field http value field r).parser ≡ r.parser)
value_of_field_keeps http value none r = (record { same_addr = refl; same_finished = refl }, refl)
value_of_field_keeps http value (some field) r =
    (record { same_addr = ground arith; same_finished = ground arith }, ground arith)

pub either : {A : Type 0} (P : A → Type 0) (b : Bool) (x y : A) → P x → P y → P (if b then x else y)
either P true x y p q = p
either P false x y p q = q

InValue : Request → Request → Type 0
InValue r r' = SameClient r r' × (r'.parser.last_call_was_header_value ≡ true)

value_keeps :
    (http : HttpParser) (piece : Bytes) (r : Request) → InValue r (on_header_value http piece r).0
unfolding on_header_value InValue
value_keeps http piece r =
    let r' = record r { parser = record (r.parser) { last_call_was_header_value = true } } in
    let kept = value_of_field_keeps http piece r.parser.field r' in
    either (InValue r) r.parser.invalid_header r' (value_of_field http piece r.parser.field r')
      (record { same_addr = refl; same_finished = refl }, refl)
      (
        record { same_addr = kept.0.same_addr; same_finished = kept.0.same_finished },
        ap (λ (p : Parser). p.last_call_was_header_value) kept.1,
      )

deliver_value-InValue :
    (http : HttpParser) (piece : Bytes) (pieces : List Bytes) (r : Request)
    → InValue r (deliver_value http (piece ∷ pieces) r)
unfolding deliver_value InValue
deliver_value-InValue http piece [] r = value_keeps http piece r
deliver_value-InValue http piece (next ∷ pieces) r =
    let r' = (on_header_value http piece r).0 in
    let more = deliver_value-InValue http next pieces r' in
    (
      SameClient-trans r r' (deliver_value http (next ∷ pieces) r') (value_keeps http piece r).0
          more.0,
      more.1,
    )

-- A header that is not `Expect` leaves the state of the request alone.
abbrev pub IsQuietName : Option Bytes → Type 0
IsQuietName name = name ≢ some (codes "EXPECT")

not_expect :
    (s : Bytes) → IsQuietName (some s) → bytes_eq (http_prefix ++ s) (codes "HTTP_EXPECT") ≡ false
unfolding bytes_eq
not_expect s quiet = elim (Bool-cases (bytes_eq s (codes "EXPECT"))) [
  | inl e ↦ absurd (quiet (ap some ((bytes_eq_iff s (codes "EXPECT")).0 e)))
  | inr e ↦ e
]

check_expect_quiet :
    (http : HttpParser) (field value : Bytes) (r : Request)
    → bytes_eq field (codes "HTTP_EXPECT") ≡ false
    → check_expect http field value r ≡ r
check_expect_quiet http field value r e = ground arith

value_quiet :
    (http : HttpParser) (q : Option Bytes) (piece : Bytes) (r : Request)
    → Named q r.parser
    → IsQuietName q
    → (on_header_value http piece r).0.state ≡ r.state
unfolding on_header_value
value_quiet http none piece r named quiet = rw named refl
value_quiet http (some s) piece r named quiet =
    ap (λ (x : Request). x.state)
      (value_kept http (http_prefix ++ s) piece r named.0 named.1
        ∙ check_expect_quiet http (http_prefix ++ s) piece _ (not_expect s quiet))

deliver_value_quiet :
    (http : HttpParser) (q : Option Bytes) (pieces : List Bytes) (d : Dict) (r : Request)
    → r.headers ≡ environ d
    → Named q r.parser
    → IsQuietName q
    → (deliver_value http pieces r).state ≡ r.state
unfolding deliver_value
deliver_value_quiet http q [] d r here named quiet = refl
deliver_value_quiet http q (piece ∷ pieces) d r here named quiet =
    let step = value_step http q piece d r here named in
    deliver_value_quiet http q pieces _ (on_header_value http piece r).0 step.0 step.1 quiet
    ∙ value_quiet http q piece r named quiet

-- A request behind some headers.
pub record IsBehind (d : Dict) (r r' : Request) : Type 0 where
  pub holds : r'.headers ≡ environ d
  pub next_starts : r'.parser.last_call_was_header_value ≡ true
  pub client : SameClient r r'

pub deliver-IsBehind :
    (http : HttpParser) (h : HeaderPieces) (d : Dict) (r : Request)
    → r.parser.last_call_was_header_value ≡ true
    → r.headers ≡ environ d
    → IsBehind (store_header (whole_header h).0 (whole_header h).1 d) r (deliver http h r)
unfolding InValue
deliver-IsBehind http h d r first here =
    let r1 = deliver_name (h.name ∷ h.names) r in
    let valued = deliver_value-InValue http h.value h.values r1 in
    record {
      holds = deliver_header http h.name h.value h.names h.values d r first here;
      next_starts = valued.1;
      client =
          SameClient-trans r r1 (deliver http h r) (deliver_name-SameClient (h.name ∷ h.names) r)
            valued.0;
    }

pub deliver_quiet :
    (http : HttpParser) (h : HeaderPieces) (d : Dict) (r : Request)
    → r.parser.last_call_was_header_value ≡ true
    → r.headers ≡ environ d
    → IsQuietName (field_processed (whole_header h).0)
    → (deliver http h r).state ≡ r.state
unfolding deliver_name flatten
deliver_quiet http h d r first here quiet =
    let r1 = (on_header_field h.name r).0 in
    let named = first_name h.name h.names r first in
    let r2 = deliver_name h.names r1 in
    let start : r1.headers ≡ environ d = unfold on_header_field in here in
    deliver_value_quiet http (field_processed (h.name ++ flatten h.names)) (h.value ∷ h.values) d r2
      (named.1.same_headers ∙ start) named.0 quiet
    ∙ named.1.same_state
    ∙ (unfold on_header_field in refl)
