-- ===== src/Request/Events.antt =====
-- Sequences of callbacks of bjoern/request.c in which none fails: the parts of a request, each in
-- as many pieces as the parser delivers it.
use mathlib.Core.List.{flatten}
use bjoern.Common.{
  ℕ, ◌+◌, ◌<◌, ◌≡◌, refl, sym, ◌∙◌, ap, subst, Bool, true, false, none, some, List, [], ◌∷◌, ◌++◌,
  map, Bytes, length, arith, take, append-nil, append_assoc, length-append, ◌==◌, if◌then◌else◌,
  codes,
}
use bjoern.Python.{Dict}
use bjoern.Url.{unquote_url_inplace}
use bjoern.Url.Decode.{decode}
use bjoern.Url.InPlace.{Agrees, unquote_url_inplace-decode}
use bjoern.Request.{Request, environ}
use bjoern.Request.Parse.{
  HttpParser, Event, path, query_string, header_field, header_value, callback, run_callbacks,
  on_path, on_query_string, on_header_field, on_header_value, set_or_append_header,
}
use bjoern.Request.Header.{deliver_name, deliver_value, set_or_append_header-twice}

-- The callbacks of `es` turn `r` into `r'`, and the library goes on behind them.
pub Runs : Dict → List Event → Request → Request → Type 0
Runs base es r r' =
    (rest : List Event) (made : ℕ)
    → run_callbacks base (es ++ rest) made r ≡ run_callbacks base rest (made + length es) r'

-- A predicate is applied at given events, to any others behind them.
pub Runs-nil : (base : Dict) (r : Request) → Runs base [] r r
unfolding Runs
Runs-nil base r rest made = ap (λ m. run_callbacks base rest m r) (omega arith)

pub Runs-cons :
    (base : Dict) (e : Event) (es : List Event) (r r' r'' : Request)
    → callback base e r ≡ (r', false)
    → Runs base es r' r''
    → Runs base (e ∷ es) r r''
unfolding Runs run_callbacks
Runs-cons base e es r r' r'' step more rest made =
    ap
      (λ (p : Request × Bool).
        if p.1 then (p.0, some made) else run_callbacks base (es ++ rest) (made + 1) p.0)
      step
    ∙ more rest (made + 1)
    ∙ ap (λ m. run_callbacks base rest m r'') (omega arith)

pub Runs-append :
    (base : Dict) (es fs : List Event) (r r' r'' : Request)
    → Runs base es r r'
    → Runs base fs r' r''
    → Runs base (es ++ fs) r r''
unfolding Runs
Runs-append base es fs r r' r'' first second rest made =
    ap (λ l. run_callbacks base l made r) (append_assoc es fs rest)
    ∙ first (fs ++ rest) made
    ∙ second rest (made + length es)
    ∙ ap (λ m. run_callbacks base rest m r'') (omega (arith, length-append es fs))

pub Runs-whole :
    (base : Dict) (es : List Event) (r r' : Request)
    → Runs base es r r'
    → run_callbacks base es 0 r ≡ (r', none)
unfolding Runs run_callbacks
Runs-whole base es r r' runs = ap (λ l. run_callbacks base l 0 r) (sym (append-nil es)) ∙ runs [] 0

pub Runs-rest :
    (base : Dict) (es rest : List Event) (r r' : Request) (made : ℕ)
    → Runs base es r r'
    → run_callbacks base (es ++ rest) made r ≡ run_callbacks base rest (made + length es) r'
unfolding Runs
Runs-rest base es rest r r' made runs = runs rest made

-- The request with this dictionary.
abbrev pub with_dict : Dict → Request → Request
with_dict d r = record r { headers = environ d }

-- A text that is stored in pieces under a key: nothing where there are none.
abbrev pub store_pieces : Bytes → List Bytes → Dict → Dict
store_pieces k [] d = d
store_pieces k (piece ∷ pieces) d = store_pieces k pieces (set_or_append_header k piece d)

pub store_pieces_lem :
    (k piece : Bytes) (pieces : List Bytes) (d : Dict)
    → store_pieces k (piece ∷ pieces) d ≡ set_or_append_header k (flatten (piece ∷ pieces)) d
unfolding flatten
store_pieces_lem k piece [] d = ap (λ s. set_or_append_header k s d) (sym (append-nil piece))
store_pieces_lem k piece (next ∷ pieces) d =
    ap (store_pieces k pieces) (set_or_append_header-twice k piece next d)
    ∙ store_pieces_lem k (piece ++ next) pieces d
    ∙ ap (λ s. set_or_append_header k s d) (append_assoc piece next (flatten pieces))

-- The pieces of a path, each of which decodes to a text that is not empty.
pub data Decodes : List Bytes → List Bytes → Type 0 where
  no_piece : Decodes [] []
  piece_then :
      (piece out : Bytes) (pieces outs : List Bytes)
      → decode piece ≡ some out
      → 0 < length out
      → Decodes pieces outs
      → Decodes (piece ∷ pieces) (out ∷ outs)

on_path-decode :
    (piece out : Bytes) (d : Dict) (r : Request)
    → decode piece ≡ some out
    → 0 < length out
    → on_path piece (with_dict d r)
      ≡ (with_dict (set_or_append_header (codes "PATH_INFO") out d) r, false)
unfolding on_path
on_path-decode piece out d r e pos =
    let agrees =
      subst (λ o. Agrees o [] (unquote_url_inplace piece)) e (unquote_url_inplace-decode piece) in
    let some_bytes : ((unquote_url_inplace piece).0 == 0) ≡ false = ground arith in
    ap
      (λ b. if b then (with_dict d r, true) else (
        with_dict
            (set_or_append_header (codes "PATH_INFO")
              (take (unquote_url_inplace piece).0 (unquote_url_inplace piece).1) d)
            r,
        false,
      ))
      some_bytes
    ∙ ap (λ s. (with_dict (set_or_append_header (codes "PATH_INFO") s d) r, false)) agrees.1

pub path-Runs :
    (base : Dict) (pieces outs : List Bytes) (d : Dict) (r : Request)
    → Decodes pieces outs
    → Runs base
        (map path pieces)
        (with_dict d r)
        (with_dict (store_pieces (codes "PATH_INFO") outs d) r)
unfolding callback
path-Runs base _ _ d r no_piece = Runs-nil base (with_dict d r)
path-Runs base _ _ d r (piece_then piece out pieces outs e pos more) =
    let d' = set_or_append_header (codes "PATH_INFO") out d in
    Runs-cons base (path piece) (map path pieces) (with_dict d r) (with_dict d' r) _
      (on_path-decode piece out d r e pos) (path-Runs base pieces outs d' r more)

pub query-Runs :
    (base : Dict) (pieces : List Bytes) (d : Dict) (r : Request)
    → Runs base
        (map query_string pieces)
        (with_dict d r)
        (with_dict (store_pieces (codes "QUERY_STRING") pieces d) r)
unfolding callback on_query_string
query-Runs base [] d r = Runs-nil base (with_dict d r)
query-Runs base (piece ∷ pieces) d r =
    let d' = set_or_append_header (codes "QUERY_STRING") piece d in
    Runs-cons base (query_string piece) (map query_string pieces) (with_dict d r) (with_dict d' r) _
      refl (query-Runs base pieces d' r)

pub name-Runs :
    (base : Dict) (pieces : List Bytes) (r : Request)
    → Runs base (map header_field pieces) r (deliver_name pieces r)
unfolding callback deliver_name on_header_field
name-Runs base [] r = Runs-nil base r
name-Runs base (piece ∷ pieces) r =
    let r' = (on_header_field piece r).0 in
    Runs-cons base (header_field piece) (map header_field pieces) r r' (deliver_name pieces r') refl
      (name-Runs base pieces r')

pub value-Runs :
    (base : Dict) (http : HttpParser) (pieces : List Bytes) (r : Request)
    → Runs base (map (header_value http) pieces) r (deliver_value http pieces r)
unfolding callback deliver_value on_header_value
value-Runs base http [] r = Runs-nil base r
value-Runs base http (piece ∷ pieces) r =
    let r' = (on_header_value http piece r).0 in
    Runs-cons base (header_value http piece) (map (header_value http) pieces) r r'
      (deliver_value http pieces r') refl (value-Runs base http pieces r')
