-- ===== src/Response/Carrying.antt =====
-- What an application that hands over its whole body is, and what `wsgi_call_application` of
-- bjoern/wsgi.c opens of it.
use bjoern.Common.{
  ◌≤◌, ◌≡◌, refl, ◌∙◌, ap, Bool, true, false, not, ◌||◌, Option, none, some, List, [], ◌∷◌, map,
  Bytes, length, arith,
}
use bjoern.Python.{
  HeaderItem, pair, header_list, absent, start_args, bytes_item, Iter, stop, Retval, bytes_value,
  list_value, wrapper_value, iterable_value, Application, starts, returns,
}
use bjoern.Request.{Request, response, no_iterable, Iterable, wrapper, other_iterable}
use bjoern.Response.{
  all_pairs, encode_fields, is_content_length, Fields, clean_headers, start_response,
  get_next_chunk, iterate_items, generic_iterable, bytestring, first_of, Next, next_chunk, ended,
  First, broken, first_chunk, no_first_chunk, open_retval,
}

-- The application: one call of `start_response`, with texts for all arguments.
abbrev pub items_of : Fields → List HeaderItem
items_of [] = []
items_of ((f, v) ∷ fields) = pair (some f) (some v) ∷ items_of fields

abbrev pub responder : Bytes → Fields → Retval → Application
responder status fields v =
    starts (start_args (some status) (header_list (items_of fields)) absent) λ success. returns v

abbrev pub has_length : Fields → Bool
has_length [] = false
has_length ((f, v) ∷ fields) = is_content_length f || has_length fields

-- An iterator over these chunks, some of which may be empty.
abbrev pub iterate : List Bytes → Iter
iterate cs = iterate_items (map bytes_item cs)

-- The values that carry a body in these chunks: a bytestring, a list, an iterable, or a
-- `FileWrapper` without a descriptor.
pub data Carries : Retval → List Bytes → Type 0 where
  as_bytes : (s : Bytes) → Carries (bytes_value s) (s ∷ [])
  as_list : (cs : List Bytes) → Carries (list_value (map bytes_item cs)) cs
  as_iterable :
      (has_close : Bool) (cs : List Bytes) → Carries (iterable_value has_close (iterate cs)) cs
  as_wrapper : (cs : List Bytes) → Carries (wrapper_value none (iterate cs)) cs

-- The chunks that are sent.
abbrev pub filled : List Bytes → List Bytes
filled [] = []
filled ([] ∷ cs) = filled cs
filled ((c ∷ s) ∷ cs) = (c ∷ s) ∷ filled cs

all_pairs-items_of : (fields : Fields) → all_pairs (items_of fields) ≡ true
unfolding all_pairs
all_pairs-items_of [] = refl
all_pairs-items_of ((f, v) ∷ fields) = all_pairs-items_of fields

encode_fields-items_of :
    (fields : Fields) → encode_fields (items_of fields) ≡ some (fields, has_length fields)
unfolding encode_fields
encode_fields-items_of [] = refl
encode_fields-items_of ((f, v) ∷ fields) = ground (arith, encode_fields-items_of fields)

clean_headers-items_of :
    (fields : Fields)
    → clean_headers (header_list (items_of fields)) ≡ some (fields, has_length fields)
unfolding clean_headers
clean_headers-items_of fields =
    ground (arith, all_pairs-items_of fields, encode_fields-items_of fields)

-- The request behind the call of `start_response`.
abbrev pub responded : Bytes → Fields → Request → Request
responded status fields r = record r {
  status = some status;
  headers = response fields;
  state = record (r.state) {
    response_length_unknown = not (has_length fields);
    start_response_called = true;
  };
}

pub start_response-responded :
    (status : Bytes) (fields : Fields) (r : Request)
    → r.state.start_response_called ≡ false
    → 3 ≤ length status
    → start_response r (start_args (some status) (header_list (items_of fields)) absent)
      ≡ (responded status fields r, true)
unfolding start_response
start_response-responded status fields r first long = ground (arith, clean_headers-items_of fields)

-- What an iterator over such chunks has left to yield.
abbrev pub Left : Option Iter → List Bytes → Type 0
Left none ds = ds ≡ []
Left (some it) ds = (es : List Bytes) × (it ≡ iterate es) × (filled es ≡ ds)

-- The first chunk, and what is left behind it, are the chunks that are to be sent.
abbrev pub Splits : List Bytes → First → Option Iter → Type 0
Splits fs (first_chunk c) left = (ds : List Bytes) × (fs ≡ c ∷ ds) × Left left ds
Splits fs no_first_chunk left = (fs ≡ []) × Left left []
Splits fs broken left = ⊥

-- The iterable is no file with a descriptor.
abbrev pub IsNoFile : Iterable → Type 0
IsNoFile (wrapper (some fd)) = ⊥
IsNoFile _ = Unit

pub record Opened (v : Retval) (cs : List Bytes) (r : Request) : Type 0 where
  pub iterable : Iterable
  pub left : Option Iter
  pub first : First
  pub result : open_retval v r ≡ (record r { iterable = iterable; iterator = left }, first)
  pub no_file : IsNoFile iterable
  pub splits : Splits (filled cs) first left

opened_iterable :
    (cs : List Bytes) (r : Request)
    → (left : Iter) × (next : Next) × (get_next_chunk (iterate cs) r
        ≡ (record r { iterator = some left }, next))
      × Splits (filled cs) (first_of next) (some left)
unfolding get_next_chunk
opened_iterable [] r = (stop, ended, refl, (refl, ([], refl, refl)))
opened_iterable ([] ∷ cs) r = opened_iterable cs r
opened_iterable ((c ∷ s) ∷ cs) r =
    (iterate cs, next_chunk (c ∷ s), refl, (filled cs, refl, (cs, refl, refl)))

Opened-generic :
    (it : Iterable) (v : Retval) (cs : List Bytes) (r : Request)
    → IsNoFile it
    → open_retval v r ≡ generic_iterable it (iterate cs) r
    → Opened v cs r
Opened-generic it v cs r plain e =
    let r1 = record r { iterable = it; iterator = some (iterate cs) } in
    let (left, next, got, splits) = opened_iterable cs r1 in
    record {
      iterable = it;
      left = some left;
      first = first_of next;
      result = e ∙ ap (λ (p : Request × Next). (p.0, first_of p.1)) got;
      no_file = plain;
      splits = splits;
    }

Opened-bytes :
    (v : Retval) (s : Bytes) (r : Request) → open_retval v r ≡ bytestring s r → Opened v (s ∷ []) r
Opened-bytes v [] r e = record {
  iterable = no_iterable;
  left = none;
  first = no_first_chunk;
  result = e;
  no_file = tt;
  splits = (refl, refl);
}
Opened-bytes v (c ∷ s) r e = record {
  iterable = no_iterable;
  left = none;
  first = first_chunk (c ∷ s);
  result = e;
  no_file = tt;
  splits = ([], refl, refl);
}

Opened-list : (cs : List Bytes) (r : Request) → Opened (list_value (map bytes_item cs)) cs r
unfolding open_retval
Opened-list [] r = Opened-generic (other_iterable false) (list_value []) [] r tt refl
Opened-list (s ∷ []) r = Opened-bytes (list_value (bytes_item s ∷ [])) s r refl
Opened-list (s ∷ t ∷ cs) r =
    Opened-generic (other_iterable false) (list_value (map bytes_item (s ∷ t ∷ cs))) (s ∷ t ∷ cs) r
      tt refl

pub Carries-Opened : (v : Retval) (cs : List Bytes) (r : Request) → Carries v cs → Opened v cs r
unfolding open_retval
Carries-Opened _ _ r (as_bytes s) = Opened-bytes (bytes_value s) s r refl
Carries-Opened _ _ r (as_list cs) = Opened-list cs r
Carries-Opened _ _ r (as_iterable has_close cs) =
    Opened-generic (other_iterable has_close) (iterable_value has_close (iterate cs)) cs r tt refl
Carries-Opened _ _ r (as_wrapper cs) =
    Opened-generic (wrapper none) (wrapper_value none (iterate cs)) cs r tt refl
