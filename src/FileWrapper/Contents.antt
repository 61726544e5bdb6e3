-- ===== src/FileWrapper/Contents.antt =====
-- What an iteration over a `FileWrapper` of bjoern/filewrapper.c yields, and what bjoern/wsgi.c
-- makes of it.
use mathlib.Core.List.{flatten}
use bjoern.Common.{
  ℕ, zero, suc, ◌<◌, ◌≡◌, refl, ◌∙◌, ap, true, Option, none, some, [], ◌∷◌, ◌++◌, Bytes, length,
  arith, length-append,
}
use bjoern.Python.{yield, bytes_item, wrapper_value, Iter, stop}
use bjoern.Request.{Request, wrapper}
use bjoern.Response.{first_chunk, open_retval}
use bjoern.Server.Stream.{chunks, completes}
use bjoern.FileWrapper.{
  iterate_on, file_wrapper_iter_next, inc_use_count, FileRead, read_bytes, FileObject, FileWrapper,
  parsed, file_wrapper_new, file_wrapper_iter, read_iter, wrapped,
}

-- What Python documents of `read` on a file, here the bytes that it has left: the result is a
-- beginning of these, and it is empty only at the end of the file.
pub record ReadsFile (read : Bytes → Bytes × Bytes) : Type 0 where
  pub splits : (left : Bytes) → (read left).0 ++ (read left).1 ≡ left
  pub goes_on : (c : ℕ) (left : Bytes) → 0 < length (read (c ∷ left)).0

-- The answers to its calls, one after the other.
unfoldable pub answers_of : (Bytes → Bytes × Bytes) → Bytes → ℕ → FileRead
answers_of read left zero = read_bytes (read left).0
answers_of read left (suc call) = answers_of read (read left).1 call

append_empty : (xs ys : Bytes) → xs ++ ys ≡ [] → xs ≡ []
append_empty [] ys e = refl
append_empty (x ∷ xs) ys e = absurd (let bad : ◌≡◌ {A = Bytes} (x ∷ xs ++ ys) [] = e in cc)

-- A read of something is the next item, and an empty read the end.
next_read :
    (s : Bytes) (rest : Iter)
    → 0 < length s
    → iterate_on (file_wrapper_iter_next (read_bytes s)) (some rest)
      ≡ some (yield (bytes_item s) rest)
unfolding file_wrapper_iter_next
next_read [] rest h = elim h [ ]
next_read (c ∷ s) rest h = refl

last_read :
    (s : Bytes) (rest : Option Iter)
    → s ≡ []
    → iterate_on (file_wrapper_iter_next (read_bytes s)) rest ≡ some stop
unfolding file_wrapper_iter_next
last_read s rest e = ap (λ t. iterate_on (file_wrapper_iter_next (read_bytes t)) rest) e

chunks-yield :
    (s : Bytes) (rest : Iter) → 0 < length s → chunks (yield (bytes_item s) rest) ≡ s ∷ chunks rest
unfolding chunks
chunks-yield [] rest h = elim h [ ]
chunks-yield (c ∷ s) rest h = refl

module _ (read : Bytes → Bytes × Bytes) (law : ReadsFile read) where
  reads_nothing : (read []).0 ≡ []
  reads_nothing = append_empty (read []).0 (read []).1 (law.splits [])

  shorter : (c n : ℕ) (left : Bytes) → length left < n → length (read (c ∷ left)).1 < n
  shorter c n left h =
      let size = ap (λ (t : Bytes). length t) (law.splits (c ∷ left)) in
      let pos = law.goes_on c left in
      omega (arith, size, length-append (read (c ∷ left)).0 (read (c ∷ left)).1)

  -- The iteration ends, and has read what there was.
  reads_all :
      (n : ℕ) (left : Bytes)
      → length left < n
      → (it : Iter) × (read_iter n (answers_of read left) ≡ some it)
        × (flatten (chunks it) ≡ left)
        × (completes it ≡ true)
  unfolding read_iter answers_of flatten chunks completes
  reads_all zero left h = absurd (omega arith)
  reads_all (suc n) [] h = (
    stop,
    last_read (read []).0 (read_iter n (answers_of read (read []).1)) reads_nothing,
    refl,
    refl,
  )
  reads_all (suc n) (c ∷ left) h =
      let (s, rest) = read (c ∷ left) in
      let pos = law.goes_on c left in
      let (it, e, all, ends) = reads_all n rest (shorter c n left (omega arith)) in
      (
        yield (bytes_item s) it,
        ap (iterate_on (file_wrapper_iter_next (read_bytes s))) e ∙ next_read s it pos,
        ap flatten (chunks-yield s it pos) ∙ ap (λ t. s ++ t) all ∙ law.splits (c ∷ left),
        ends,
      )

made :
    (file : FileObject) (blocksize : Option ℕ) (w : FileWrapper)
    → file_wrapper_new (parsed file blocksize) ≡ some w
    → w ≡ record {
      file = inc_use_count file.descriptor file;
      blocksize = blocksize;
      fd = file.descriptor;
    }
unfolding file_wrapper_new
made file blocksize w e = cc

inc_use_count-answers :
    (fd : Option ℕ) (file : FileObject) → (inc_use_count fd file).answers ≡ file.answers
inc_use_count-answers none file = refl
inc_use_count-answers (some fd) file = refl

kept_answers :
    (file : FileObject) (blocksize : Option ℕ) (w : FileWrapper) (fuel : ℕ)
    → file_wrapper_new (parsed file blocksize) ≡ some w
    → file_wrapper_iter fuel w ≡ read_iter fuel (file.answers blocksize)
unfolding file_wrapper_iter
kept_answers file blocksize w fuel e =
    ap (file_wrapper_iter fuel) (made file blocksize w e)
    ∙ ap (λ (a : Option ℕ → ℕ → FileRead). read_iter fuel (a blocksize))
        (inc_use_count-answers file.descriptor file)

-- A file whose reads behave as documented: an iteration over its wrapper, with the block size that
-- the wrapper was given, ends without an error after at most one more call than the file has bytes
-- left, and yields pieces that make up what is left of the file.
pub file_wrapper_contents :
    (file : FileObject) (blocksize : Option ℕ) (read : Bytes → Bytes × Bytes) (n : ℕ) (left : Bytes)
    (w : FileWrapper)
    → ReadsFile read
    → file.answers blocksize ≡ answers_of read left
    → length left < n
    → file_wrapper_new (parsed file blocksize) ≡ some w
    → (it : Iter) × (file_wrapper_iter n w ≡ some it)
      × (flatten (chunks it) ≡ left)
      × (completes it ≡ true)
file_wrapper_contents file blocksize read n left w law here enough e =
    let (it, ran, all, ends) = reads_all read law n left enough in
    (it, kept_answers file blocksize w n e ∙ ap (read_iter n) here ∙ ran, all, ends)

first_read :
    (s : Bytes) (rest : Iter) (r : Request)
    → 0 < length s
    → open_retval (wrapper_value none (yield (bytes_item s) rest)) r
      ≡ (record r { iterable = wrapper none; iterator = some rest }, first_chunk s)
unfolding open_retval
first_read [] rest r h = elim h [ ]
first_read (c ∷ s) rest r h = refl

-- A response that is such a wrapper, of a file with no descriptor and something left: the iteration
-- ends after at most one more call than the file has bytes left; its first read is the first chunk,
-- and this with what its iterator yields after that is what was left of the file.
pub wrapper_streamed :
    (file : FileObject) (blocksize : Option ℕ) (read : Bytes → Bytes × Bytes) (n c : ℕ)
    (left : Bytes) (w : FileWrapper) (r : Request)
    → ReadsFile read
    → file.answers blocksize ≡ answers_of read (c ∷ left)
    → length left < n
    → file.descriptor ≡ none
    → file_wrapper_new (parsed file blocksize) ≡ some w
    → (it : Iter) × (first : Bytes) × (rest : Iter) × (file_wrapper_iter (suc n) w ≡ some it)
      × (open_retval (wrapped w it) r
          ≡ (record r { iterable = wrapper none; iterator = some rest }, first_chunk first))
      × (first ++ flatten (chunks rest) ≡ c ∷ left)
      × (completes rest ≡ true)
      × (0 < length first)
unfolding answers_of read_iter
wrapper_streamed file blocksize read n c left w r law here enough plain e =
    let (s, more) = read (c ∷ left) in
    let pos = law.goes_on c left in
    let (rest, ran, all, ends) = reads_all read law n more (shorter read law c n left enough) in
    (
      yield (bytes_item s) rest,
      s,
      rest,
      kept_answers file blocksize w (suc n) e
          ∙ ap (read_iter (suc n)) here
          ∙ ap (iterate_on (file_wrapper_iter_next (read_bytes s))) ran
          ∙ next_read s rest pos,
      ap (λ fd. open_retval (wrapper_value fd (yield (bytes_item s) rest)) r)
            (ap (λ (v : FileWrapper). v.fd) (made file blocksize w e) ∙ plain)
          ∙ first_read s rest r pos,
      ap (λ t. s ++ t) all ∙ law.splits (c ∷ left),
      ends,
      pos,
    )
