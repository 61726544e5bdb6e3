-- ===== src/FileWrapper/Tests.antt =====
-- Inputs for the theorems on bjoern/filewrapper.c, and tests of it.
use mathlib.Core.List.{flatten}
use bjoern.Common.{
  ◌<◌, ◌≡◌, refl, true, none, some, ◌++◌, Bytes, codes, length, take, drop, take-append-drop, arith,
}
use bjoern.Python.{Iter}
use bjoern.Request.{request_new, wrapper}
use bjoern.Response.{first_chunk, open_retval}
use bjoern.Server.Stream.{chunks, completes}
use bjoern.FileWrapper.{FileObject, FileWrapper, file_wrapper_new, file_wrapper_iter, wrapped}
use bjoern.FileWrapper.Contents.{ReadsFile, answers_of, file_wrapper_contents, wrapper_streamed}

-- A file that is read in blocks of three bytes.
abbrev read_three : Bytes → Bytes × Bytes
read_three left = (take 3 left, drop 3 left)

read_three-ReadsFile : ReadsFile read_three
read_three-ReadsFile = record {
  splits = λ left. take-append-drop 3 left;
  goes_on = λ c left. omega arith;
}

abbrev notes : FileObject
notes = record {
  descriptor = none;
  answers = λ blocksize. answers_of read_three (codes "0123456789");
  has_close = true;
  close_calls = 0;
  use_count = 0;
}

abbrev opened_notes : FileObject
opened_notes = record notes { descriptor = some 5 }

abbrev notes_wrapper : FileWrapper
notes_wrapper = record { file = notes; blocksize = some 3; fd = none }

file_wrapper_contents_example :
    (it : Iter) × (file_wrapper_iter 11 notes_wrapper ≡ some it)
    × (flatten (chunks it) ≡ codes "0123456789")
    × (completes it ≡ true)
unfolding file_wrapper_new
file_wrapper_contents_example =
    file_wrapper_contents notes (some 3) read_three 11 (codes "0123456789") notes_wrapper
      read_three-ReadsFile refl (omega arith) refl

wrapper_streamed_example :
    (it : Iter) × (first : Bytes) × (rest : Iter) × (file_wrapper_iter 11 notes_wrapper ≡ some it)
    × (open_retval (wrapped notes_wrapper it) (request_new (codes "10.0.0.1")) ≡ (
      record (request_new (codes "10.0.0.1")) { iterable = wrapper none; iterator = some rest },
      first_chunk first,
    ))
    × (first ++ flatten (chunks rest) ≡ codes "0123456789")
    × (completes rest ≡ true)
    × (0 < length first)
unfolding file_wrapper_new
wrapper_streamed_example =
    wrapper_streamed notes (some 3) read_three 10 b'0' (codes "123456789") notes_wrapper
      (request_new (codes "10.0.0.1")) read_three-ReadsFile refl (omega arith) refl refl
