-- ===== src/Request/Header.antt =====
-- The header callbacks of bjoern/request.c: a header that the parser delivers in any pieces.
use bjoern.Common.{
  ◌≡◌, refl, sym, ap, ◌∙◌, subst, Bool, true, false, Option, none, some, List, [], ◌∷◌, ◌++◌, map,
  Bytes, bytes_eq_iff, arith, append_assoc, append-nil, if◌then◌else◌, ◌==◌, any, Option-cases, inl,
  inr,
}
use mathlib.Core.List.{flatten}
use bjoern.Python.{
  Dict, Value, text, stream, version, truth, file_wrapper_type, stderr, get_item, set_item,
}
use bjoern.Request.{Request, Parser, environ}
use bjoern.Request.Parse.{
  HttpParser, set_or_append_header, concat_text, field_byte, field_processed, http_prefix,
  start_header, append_field, on_header_field, on_header_value, with_environ, check_expect,
  value_of_field,
}

abbrev pub joined : Option Bytes → Option Bytes → Option Bytes
joined none b = none
joined (some a) none = none
joined (some a) (some b) = some (a ++ b)

field_processed-append :
    (a b : Bytes) → field_processed (a ++ b) ≡ joined (field_processed a) (field_processed b)
unfolding field_processed
field_processed-append [] b = ground arith
field_processed-append (c ∷ a) b = ground (arith, field_processed-append a b)

-- the pieces of a name, and of a value, one callback each
unfoldable pub deliver_name : List Bytes → Request → Request
deliver_name [] r = r
deliver_name (piece ∷ pieces) r = deliver_name pieces (on_header_field piece r).0

unfoldable pub deliver_value : HttpParser → List Bytes → Request → Request
deliver_value http [] r = r
deliver_value http (piece ∷ pieces) r = deliver_value http pieces (on_header_value http piece r).0

-- The parser behind some pieces of a name, by what they make together.
abbrev pub Named : Option Bytes → Parser → Type 0
Named none p = p.invalid_header ≡ true
Named (some s) p = (p.invalid_header ≡ false) × (p.field ≡ some (http_prefix ++ s))

abbrev piece_parser : Option Bytes → Parser → Parser
piece_parser q p =
    if (start_header p).invalid_header then start_header p else append_field q (start_header p)

Named-first :
    (q : Option Bytes) (p : Parser)
    → p.last_call_was_header_value ≡ true
    → Named q (piece_parser q p)
Named-first none p h = ground arith
Named-first (some s) p h = ground arith

Named-next :
    (done q : Option Bytes) (p : Parser)
    → p.last_call_was_header_value ≡ false
    → Named done p
    → Named (joined done q) (piece_parser q p)
Named-next none q p h n = ground arith
Named-next (some s) none p h n = ground arith
Named-next (some s) (some t) p h n = ground (arith, append_assoc http_prefix s t)

in_name : (q : Option Bytes) (p : Parser) → (piece_parser q p).last_call_was_header_value ≡ false
in_name none p = ground arith
in_name (some s) p = ground arith

-- What `deliver_name` leaves alone.
pub record SameRest (r r' : Request) : Type 0 where
  pub same_headers : r'.headers ≡ r.headers
  pub same_state : r'.state ≡ r.state

deliver_name-Named :
    (pieces : List Bytes) (done : Bytes) (r : Request)
    → r.parser.last_call_was_header_value ≡ false
    → Named (field_processed done) r.parser
    → Named (field_processed (done ++ flatten pieces)) (deliver_name pieces r).parser
      × SameRest r (deliver_name pieces r)
unfolding deliver_name on_header_field flatten
deliver_name-Named [] done r h n =
    (rw append-nil n, record { same_headers = refl; same_state = refl })
deliver_name-Named (piece ∷ pieces) done r h n =
    let r' = (on_header_field piece r).0 in
    let here : Named (field_processed (done ++ piece)) r'.parser =
      rw (field_processed-append done piece)
        (Named-next (field_processed done) (field_processed piece) r.parser h n) in
    let rest =
      deliver_name-Named pieces (done ++ piece) r' (in_name (field_processed piece) r.parser)
        here in
    (
      rw (append_assoc done piece (flatten pieces)) at rest.0,
      record { same_headers = rest.1.same_headers; same_state = rest.1.same_state },
    )

pub first_name :
    (name : Bytes) (names : List Bytes) (r : Request)
    → r.parser.last_call_was_header_value ≡ true
    → let r1 = (on_header_field name r).0 in
      Named (field_processed (name ++ flatten names)) (deliver_name names r1).parser
      × SameRest r1 (deliver_name names r1)
first_name name names r first =
    deliver_name-Named names name (on_header_field name r).0
      (unfold on_header_field in in_name (field_processed name) r.parser)
      (unfold on_header_field in Named-first (field_processed name) r.parser first)

get_item-set_item : (k : Bytes) (v : Value) (d : Dict) → get_item k (set_item k v d) ≡ some v
unfolding get_item set_item
get_item-set_item k v [] = ground (arith, bytes_eq_iff k k)
get_item-set_item k v ((j, w) ∷ d) = ground (arith, bytes_eq_iff k k, get_item-set_item k v d)

pub set_item-set_item :
    (k : Bytes) (v w : Value) (d : Dict) → set_item k w (set_item k v d) ≡ set_item k w d
unfolding set_item
set_item-set_item k v w [] = ground (arith, bytes_eq_iff k k)
set_item-set_item k v w ((j, u) ∷ d) = ground (arith, bytes_eq_iff k k, set_item-set_item k v w d)

pub concat_text-concat_text :
    (v : Value) (a b : Bytes) → concat_text (concat_text v a) b ≡ concat_text v (a ++ b)
concat_text-concat_text (text s) a b = ap text (append_assoc s a b)
concat_text-concat_text (stream s n) a b = refl
concat_text-concat_text (version m n) a b = refl
concat_text-concat_text (truth t) a b = refl
concat_text-concat_text file_wrapper_type a b = refl
concat_text-concat_text stderr a b = refl

module _ (k val : Bytes) (d : Dict) where
  header_set : get_item k d ≡ none → set_or_append_header k val d ≡ set_item k (text val) d
  unfolding set_or_append_header
  header_set e = ground arith

  header_appended :
      (old : Value)
      → get_item k d ≡ some old
      → set_or_append_header k val d ≡ set_item k (concat_text old val) d
  unfolding set_or_append_header
  header_appended old e = ground arith

pub set_or_append_header-twice :
    (k a b : Bytes) (d : Dict)
    → set_or_append_header k b (set_or_append_header k a d) ≡ set_or_append_header k (a ++ b) d
set_or_append_header-twice k a b d = elim (Option-cases (get_item k d)) [
  | inl e ↦
      rw (header_set k a d e, header_set k (a ++ b) d e)
        (header_appended k b (set_item k (text a) d) (text a) (get_item-set_item k (text a) d)
          ∙ set_item-set_item k (text a) (text (a ++ b)) d)
  | inr (v, e) ↦
      rw (header_appended k a d v e, header_appended k (a ++ b) d v e)
        (header_appended k b (set_item k (concat_text v a) d) (concat_text v a)
            (get_item-set_item k (concat_text v a) d)
          ∙ set_item-set_item k (concat_text v a) (concat_text (concat_text v a) b) d
          ∙ ap (λ w. set_item k w d) (concat_text-concat_text v a b))
]

-- What a header means for the dictionary: nothing if its name holds an underscore.
abbrev stored : Option Bytes → Bytes → Dict → Dict
stored none value d = d
stored (some s) value d = set_or_append_header (http_prefix ++ s) value d

check_expect_keeps :
    (http : HttpParser) (field value : Bytes) (r : Request)
    → ((check_expect http field value r).headers ≡ r.headers)
      × ((check_expect http field value r).parser ≡ r.parser)
check_expect_keeps http field value r = ground arith

abbrev pub in_value : Request → Request
in_value r = record r { parser = record (r.parser) { last_call_was_header_value = true } }

pub value_kept :
    (http : HttpParser) (f piece : Bytes) (r : Request)
    → r.parser.invalid_header ≡ false
    → r.parser.field ≡ some f
    → (on_header_value http piece r).0
      ≡ check_expect http f piece (with_environ (set_or_append_header f piece) (in_value r))
unfolding on_header_value
value_kept http f piece r valid field =
    subst
      (λ b.
        (if b then in_value r else value_of_field http piece r.parser.field (in_value r))
        ≡ check_expect http f piece (with_environ (set_or_append_header f piece) (in_value r)))
      (sym valid) (ap (λ o. value_of_field http piece o (in_value r)) field)

with_environ-headers :
    (g : Dict → Dict) (r : Request) (d : Dict)
    → r.headers ≡ environ d
    → (with_environ g r).headers ≡ environ (g d)
with_environ-headers g r d e = rw e refl

pub value_step :
    (http : HttpParser) (q : Option Bytes) (piece : Bytes) (d : Dict) (r : Request)
    → r.headers ≡ environ d
    → Named q r.parser
    → ((on_header_value http piece r).0.headers ≡ environ (stored q piece d))
      × Named q (on_header_value http piece r).0.parser
value_step http none piece d r e n = unfold on_header_value in ground arith
value_step http (some s) piece d r e n =
    let f = http_prefix ++ s in
    let r' = with_environ (set_or_append_header f piece) (in_value r) in
    let keeps = check_expect_keeps http f piece r' in
    rw (value_kept http f piece r n.0 n.1) (
      keeps.0 ∙ with_environ-headers (set_or_append_header f piece) (in_value r) d e,
      subst (Named (some s)) (sym keeps.1) n,
    )

stored-stored :
    (q : Option Bytes) (a b : Bytes) (d : Dict) → stored q b (stored q a d) ≡ stored q (a ++ b) d
stored-stored none a b d = refl
stored-stored (some s) a b d = set_or_append_header-twice (http_prefix ++ s) a b d

deliver_value-stored :
    (http : HttpParser) (q : Option Bytes) (pieces : List Bytes) (done : Bytes) (d : Dict)
    (r : Request)
    → r.headers ≡ environ (stored q done d)
    → Named q r.parser
    → (deliver_value http pieces r).headers ≡ environ (stored q (done ++ flatten pieces) d)
unfolding deliver_value flatten
deliver_value-stored http q [] done d r e n = rw append-nil e
deliver_value-stored http q (piece ∷ pieces) done d r e n =
    let step = value_step http q piece (stored q done d) r e n in
    rw (append_assoc done piece (flatten pieces)) at (
      deliver_value-stored http q pieces (done ++ piece) d (on_header_value http piece r).0
        (step.0 ∙ ap environ (stored-stored q done piece d)) step.1)

-- A header's name, as a whole: nothing if it holds an underscore, and else its bytes one by one.
field_processed_lem :
    (name : Bytes)
    → field_processed name
      ≡ (if any (λ c. c == b'_') name then none else some (map field_byte name))
unfolding field_processed
field_processed_lem [] = refl
field_processed_lem (c ∷ name) = ground (arith, field_processed_lem name)

-- The dictionary behind a header.
abbrev pub store_header : Bytes → Bytes → Dict → Dict
store_header name value d =
    if any (λ c. c == b'_') name
    then d
    else set_or_append_header (http_prefix ++ map field_byte name) value d

stored_lem :
    (name value : Bytes) (d : Dict)
    → stored (field_processed name) value d ≡ store_header name value d
stored_lem name value d = rw field_processed_lem (go (any (λ c. c == b'_') name))
  where
    go :
        (b : Bool)
        → stored (if b then none else some (map field_byte name)) value d
          ≡ (if b then d else set_or_append_header (http_prefix ++ map field_byte name) value d)
    go true = refl
    go false = refl

-- A header that the parser delivers in any number of pieces, at least one for its name and one for
-- its value, at the start of the headers or behind another value, has the effect on the dictionary
-- of the whole name and the whole value: none if the name holds an underscore anywhere; and else
-- the value is set, or appended to what is there, under `HTTP_` followed by the name with its
-- letters in upper case and its dashes replaced.
pub deliver_header :
    (http : HttpParser) (name value : Bytes) (names values : List Bytes) (d : Dict) (r : Request)
    → r.parser.last_call_was_header_value ≡ true
    → r.headers ≡ environ d
    → (deliver_value http (value ∷ values) (deliver_name (name ∷ names) r)).headers
      ≡ environ (store_header (flatten (name ∷ names)) (flatten (value ∷ values)) d)
unfolding deliver_name deliver_value flatten
deliver_header http name value names values d r first e =
    let r1 = (on_header_field name r).0 in
    let named = first_name name names r first in
    let r2 = deliver_name names r1 in
    let q = field_processed (name ++ flatten names) in
    let start : r1.headers ≡ environ d = unfold on_header_field in e in
    let here = named.1.same_headers ∙ start in
    let step = value_step http q value d r2 here named.0 in
    deliver_value-stored http q values value d (on_header_value http value r2).0 step.0 step.1
    ∙ ap environ (stored_lem (name ++ flatten names) (value ++ flatten values) d)
