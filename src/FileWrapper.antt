-- ===== src/FileWrapper.antt =====
-- bjoern/filewrapper.c: `wsgi.file_wrapper`. The Python file that it wraps is not code of the
-- repository: what its `read` returns is a parameter, an answer for each call.
pub mod Contents
mod Tests
use bjoern.Common.{
  zero, suc, ℕ, ◌+◌, ◌-◌, Bool, true, false, Option, none, some, List, [], ◌∷◌, Bytes,
  if◌then◌else◌,
}
use bjoern.Python.{Item, bytes_item, other_item, Iter, yield, stop, raise, Retval, wrapper_value}

-- What a call of `read` does: it returns bytes, or another object with its truth, or it raises.
pub data FileRead : Type 0 where
  read_bytes : Bytes → FileRead
  read_object : Bool → FileRead
  read_raised : FileRead

-- A Python file: its descriptor, `none` where it has none; what each of its reads answers, by the
-- number of the call, for a block size that is given or not; whether it has a method `close`; how
-- often that was called; and its use count.
pub record FileObject : Type 0 where
  pub descriptor : Option ℕ
  pub answers : Option ℕ → ℕ → FileRead
  pub has_close : Bool
  pub close_calls : ℕ
  pub use_count : ℕ

-- `FileWrapper`; `fd` is `none` for -1.
pub record FileWrapper : Type 0 where
  pub file : FileObject
  pub blocksize : Option ℕ
  pub fd : Option ℕ

-- The arguments of the constructor: not one or two of them, or a file and perhaps a block size.
pub data WrapperArgs : Type 0 where
  unparsed : WrapperArgs
  parsed : FileObject → Option ℕ → WrapperArgs

-- `PyFile_IncUseCount`, where the file has a descriptor: on Python 2, since bjoern/py2py3.h makes
-- it nothing on Python 3.
abbrev pub inc_use_count : Option ℕ → FileObject → FileObject
inc_use_count none file = file
inc_use_count (some fd) file = record file { use_count = file.use_count + 1 }

-- `FileWrapper_New`: `none` where it raises.
unfoldable pub file_wrapper_new : WrapperArgs → Option FileWrapper
file_wrapper_new unparsed = none
file_wrapper_new (parsed file blocksize) = some (record {
  file = inc_use_count file.descriptor file;
  blocksize = blocksize;
  fd = file.descriptor;
})

-- `FileWrapper_GetFd`
unfoldable pub file_wrapper_get_fd : FileWrapper → Option ℕ
file_wrapper_get_fd w = w.fd

-- `FileWrapper_IterNext`: an object, the end, or an exception. An object that is not true is the
-- end.
pub data NextItem : Type 0 where
  item : Item → NextItem
  no_item : NextItem
  item_raised : NextItem

unfoldable pub file_wrapper_iter_next : FileRead → NextItem
file_wrapper_iter_next (read_bytes []) = no_item
file_wrapper_iter_next (read_bytes (c ∷ cs)) = item (bytes_item (c ∷ cs))
file_wrapper_iter_next (read_object true) = item other_item
file_wrapper_iter_next (read_object false) = no_item
file_wrapper_iter_next read_raised = item_raised

-- One call of `FileWrapper_IterNext`, and the iterator behind it.
abbrev pub iterate_on : NextItem → Option Iter → Option Iter
iterate_on (item i) none = none
iterate_on (item i) (some rest) = some (yield i rest)
iterate_on no_item rest = some stop
iterate_on item_raised rest = some raise

-- The calls of `FileWrapper_IterNext` until one of them ends the iteration; `none` if none of the
-- first `fuel` does.
unfoldable pub read_iter : ℕ → (ℕ → FileRead) → Option Iter
unfolding file_wrapper_iter_next
read_iter zero answers = none
read_iter (suc fuel) answers =
    let rest = read_iter fuel (λ call. answers (suc call)) in
    iterate_on (file_wrapper_iter_next (answers zero)) rest

-- The iterator that `FileWrapper_Iter` returns, which is the wrapper.
unfoldable pub file_wrapper_iter : ℕ → FileWrapper → Option Iter
unfolding read_iter
file_wrapper_iter fuel w = read_iter fuel (w.file.answers w.blocksize)

-- `FileWrapper_close`: the statements behind the `if` are not reached.
unfoldable pub file_wrapper_close : FileWrapper → FileWrapper
file_wrapper_close w =
    if w.file.has_close
    then record w { file = record (w.file) { close_calls = w.file.close_calls + 1 } }
    else w

-- A wrapper with its iterator as the return value of an application.
abbrev pub wrapped : FileWrapper → Iter → Retval
wrapped w it = wrapper_value w.fd it
