-- ===== src/Python.antt =====
-- What bjoern/wsgi.c, bjoern/request.c and bjoern/filewrapper.c see of Python: the arguments of a
-- call of `start_response`, the application and its iterables as the calls and values that they
-- make, and the environment dictionary. An application is not code of the repository: it is a
-- parameter of every definition that runs it, and may do anything that these types can say.
use bjoern.Common.{
  ℕ, ◌+◌, Bool, Option, none, some, List, [], ◌∷◌, ◌++◌, Bytes, bytes_eq, take, drop, length,
  if◌then◌else◌,
}

-- A text as `PyUnicode_AsLatin1String` sees it: its bytes, or `none` where it raises.
abbrev pub Latin1 : Type 0
Latin1 = Option Bytes

-- An element of the `headers` argument.
pub data HeaderItem : Type 0 where
  not_pair : HeaderItem
  pair : Latin1 → Latin1 → HeaderItem

pub data HeadersArg : Type 0 where
  not_list : HeadersArg
  header_list : List HeaderItem → HeadersArg

-- The third argument: missing or `None`, no 3-tuple, or a 3-tuple.
pub data ExcInfo : Type 0 where
  absent : ExcInfo
  malformed : ExcInfo
  triple : ExcInfo

pub data StartArgs : Type 0 where
  wrong_count : StartArgs
  start_args : Latin1 → HeadersArg → ExcInfo → StartArgs

-- An object that an iterator yields.
pub data Item : Type 0 where
  bytes_item : Bytes → Item
  other_item : Item

-- An iterator, from its next step on: it may call `start_response`, and is told whether that
-- succeeded, before it yields, stops or raises. It ends after finitely many steps.
pub data Iter : Type 0 where
  call : StartArgs → (Bool → Iter) → Iter
  yield : Item → Iter → Iter
  stop : Iter
  raise : Iter

-- What an application returns. A `FileWrapper` has the descriptor of its file, `none` for -1, and
-- the iterator that reads it.
pub data Retval : Type 0 where
  bytes_value : Bytes → Retval
  list_value : List Item → Retval
  wrapper_value : Option ℕ → Iter → Retval
  iterable_value : Bool → Iter → Retval
  not_iterable : Bool → Retval

-- The call `application(environ, start_response)`, step by step.
pub data Application : Type 0 where
  starts : StartArgs → (Bool → Application) → Application
  returns : Retval → Application
  raises : Application

-- The values of an environment dictionary. A `BytesIO` has its contents and its position.
pub data Value : Type 0 where
  text : Bytes → Value
  stream : Bytes → ℕ → Value
  version : ℕ → ℕ → Value
  truth : Bool → Value
  file_wrapper_type : Value
  stderr : Value

-- `BytesIO.write` and `BytesIO.seek(0)`; on other objects they change nothing.
unfoldable pub write_stream : Bytes → Value → Value
write_stream new (stream s pos) =
    stream (take pos s ++ (new ++ drop (pos + length new) s)) (pos + length new)
write_stream new v = v

unfoldable pub rewind : Value → Value
rewind (stream s pos) = stream s 0
rewind v = v

-- A dictionary with texts for keys, in the order of insertion.
abbrev pub Dict : Type 0
Dict = List (Bytes × Value)

unfoldable pub get_item : Bytes → Dict → Option Value
get_item k [] = none
get_item k ((j, v) ∷ d) = if bytes_eq j k then some v else get_item k d

unfoldable pub set_item : Bytes → Value → Dict → Dict
set_item k v [] = (k, v) ∷ []
set_item k v ((j, w) ∷ d) = if bytes_eq j k then (k, v) ∷ d else (j, w) ∷ set_item k v d

unfoldable pub del_item : Bytes → Dict → Dict
del_item k [] = []
del_item k ((j, w) ∷ d) = if bytes_eq j k then d else (j, w) ∷ del_item k d

-- `PyDict_Update(d, base)`
unfoldable pub update : Dict → Dict → Dict
update d [] = d
update d ((k, v) ∷ base) = update (set_item k v d) base
