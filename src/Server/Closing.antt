-- ===== src/Server/Closing.antt =====
-- `close` of a response's iterable in bjoern/server.c: which connections still hold one, and what
-- the handlers do about it.
use bjoern.Request.Message.{either}
use bjoern.Common.{
  subst, ℕ, ◌+◌, ◌≡◌, refl, sym, ◌∙◌, ap, Bool, true, false, Option, none, some, [], ◌∷◌, ◌++◌,
  Bytes, length, arith, ◌==◌, if◌then◌else◌, Bool-cases, inl, inr,
}
use bjoern.Python.{
  StartArgs, wrong_count, start_args, absent, malformed, triple, bytes_item, other_item, Iter, call,
  yield, stop, raise,
}
use bjoern.Request.{
  Request, Chunk, no_chunk, chunk, dangling, Iterable, no_iterable, wrapper, other_iterable,
  request_clean, request_reset,
}
use bjoern.Response.{start_response, Next, next_chunk, ended, failed, get_next_chunk}
use bjoern.Server.{
  RwState, not_yet_done, done, aborted, expect_continue, Watcher, stopped, writing, Connection,
  IoResult, sent, would_block, io_failed, close_connection,
}
use bjoern.Server.Write.{
  Out, Io, do_send_chunk, send_chunk, has_rest, advance, hang_up, send_terminator_chunk, after_next,
  following_chunk, emit, chunk_sent, on_write_chunk, do_sendfile, head_sent, file_sent,
  on_write_sendfile, sendfile_phase, write_response, overridden, write_done, write_switch,
  ev_io_on_write,
}

start_response-iterable :
    (r : Request) (args : StartArgs) → (start_response r args).0.iterable ≡ r.iterable
unfolding start_response
start_response-iterable r wrong_count = ground arith
start_response-iterable r (start_args status headers absent) = ground arith
start_response-iterable r (start_args status headers malformed) = ground arith
start_response-iterable r (start_args status headers triple) = ground arith

get_next_chunk-iterable : (it : Iter) (r : Request) → (get_next_chunk it r).0.iterable ≡ r.iterable
unfolding get_next_chunk
get_next_chunk-iterable (call args k) r =
    get_next_chunk-iterable (k (start_response r args).1) (start_response r args).0
    ∙ start_response-iterable r args
get_next_chunk-iterable (yield (bytes_item []) it) r = get_next_chunk-iterable it r
get_next_chunk-iterable (yield (bytes_item (c ∷ cs)) it) r = refl
get_next_chunk-iterable (yield other_item it) r = refl
get_next_chunk-iterable stop r = refl
get_next_chunk-iterable raise r = refl

-- The iterable is as it was, unless the call faults.
abbrev Keeps : {A : Type 0} → Iterable → Option (Out A) → Type 0
Keeps it none = Unit
Keeps it (some (r, out, a)) = r.iterable ≡ it

either-Keeps :
    {A : Type 0} (b : Bool) (it : Iterable) (s t : Option (Out A))
    → Keeps it s
    → Keeps it t
    → Keeps it (if b then s else t)
either-Keeps true it s t p q = p
either-Keeps false it s t p q = q

advance-Keeps : (s : Bytes) (n : ℕ) (r : Request) → Keeps r.iterable (advance s n r)
advance-Keeps s n r = either-Keeps (r.current_chunk_p + n == length s) r.iterable _ _ refl refl

do_send_chunk-Keeps : (io : IoResult) (r : Request) → Keeps r.iterable (do_send_chunk io r)
unfolding do_send_chunk hang_up
do_send_chunk-Keeps io r = go io r.current_chunk
  where
    go : (io : IoResult) (ch : Chunk) → Keeps r.iterable (send_chunk io ch r)
    go (sent n) (chunk s) =
        either-Keeps (has_rest s r.current_chunk_p) r.iterable _ none (advance-Keeps s n r) tt
    go would_block (chunk s) = either-Keeps (has_rest s r.current_chunk_p) r.iterable _ none refl tt
    go io_failed (chunk s) = either-Keeps (has_rest s r.current_chunk_p) r.iterable _ none refl tt
    go _ no_chunk = tt
    go _ dangling = tt

send_terminator_chunk-Keeps : (r : Request) → Keeps r.iterable (emit [] (send_terminator_chunk r))
unfolding send_terminator_chunk
send_terminator_chunk-Keeps r = elim (Bool-cases r.state.chunked_response) [
  | inl on ↦ elim (Bool-cases (r.current_chunk_p == 0)) [
    | inl z ↦ rw (on, z) refl
    | inr z ↦ rw (on, z) tt
  ]
  | inr off ↦ rw off refl
]

after_next-Keeps : (res : Request × Next) → Keeps res.0.iterable (emit [] (after_next res))
after_next-Keeps (r, next_chunk c) = elim (Bool-cases (r.current_chunk_p == 0)) [
  | inl z ↦ rw z refl
  | inr z ↦ rw z tt
]
after_next-Keeps (r, failed) = refl
after_next-Keeps (r, ended) = send_terminator_chunk-Keeps (record r { iterator = none })

following_chunk-Keeps :
    (it : Option Iter) (r : Request) → Keeps r.iterable (emit [] (following_chunk it r))
following_chunk-Keeps none r = send_terminator_chunk-Keeps r
following_chunk-Keeps (some it) r =
    subst (λ i. Keeps i (emit [] (after_next (get_next_chunk it r)))) (get_next_chunk-iterable it r)
      (after_next-Keeps (get_next_chunk it r))

emit-Keeps :
    (it : Iterable) (out : Bytes) (res : Option (Request × RwState))
    → Keeps it (emit [] res)
    → Keeps it (emit out res)
emit-Keeps it out none h = h
emit-Keeps it out (some (r, state)) h = h

chunk_sent-Keeps :
    (it : Iterable) (res : Option (Out Bool)) → Keeps it res → Keeps it (chunk_sent res)
chunk_sent-Keeps it none h = h
chunk_sent-Keeps it (some (r, out, true)) h = h
chunk_sent-Keeps it (some (r, out, false)) h = emit-Keeps it out (following_chunk r.iterator r) (
    subst (λ i. Keeps i (emit [] (following_chunk r.iterator r))) h
      (following_chunk-Keeps r.iterator r))

head_sent-Keeps :
    (it : Iterable) (offset : Option ℕ) (res : Option (Out Bool))
    → Keeps it res
    → Keeps it (head_sent offset res)
head_sent-Keeps it offset none h = h
head_sent-Keeps it offset (some (r, out, true)) h = h
head_sent-Keeps it none (some (r, out, false)) h = h
head_sent-Keeps it (some offset) (some (r, out, false)) h = h

do_sendfile-Keeps :
    (file : Bytes) (io : IoResult) (r : Request)
    → Keeps r.iterable (file_sent (do_sendfile file io r))
unfolding do_sendfile hang_up
do_sendfile-Keeps file (sent n) r = elim (Bool-cases (n == 0)) [
  | inl z ↦ rw z refl
  | inr z ↦ rw z refl
]
do_sendfile-Keeps file would_block r = refl
do_sendfile-Keeps file io_failed r = refl

write_response-Keeps :
    (io : Io) (it : Iterable) (r : Request) → Keeps r.iterable (write_response io it r)
unfolding on_write_chunk on_write_sendfile
write_response-Keeps io (wrapper (some fd)) r = go r.current_chunk
  where
    go : (ch : Chunk) → Keeps r.iterable (sendfile_phase io ch r)
    go no_chunk = do_sendfile-Keeps io.file io.file_io r
    go (chunk s) = head_sent-Keeps r.iterable io.seek _ (do_send_chunk-Keeps io.written r)
    go dangling = head_sent-Keeps r.iterable io.seek _ (do_send_chunk-Keeps io.written r)
write_response-Keeps io (wrapper none) r =
    chunk_sent-Keeps r.iterable _ (do_send_chunk-Keeps io.written r)
write_response-Keeps io no_iterable r =
    chunk_sent-Keeps r.iterable _ (do_send_chunk-Keeps io.written r)
write_response-Keeps io (other_iterable has_close) r =
    chunk_sent-Keeps r.iterable _ (do_send_chunk-Keeps io.written r)

-- How many `close` calls an iterable is to get in its life: one if it has that method.
abbrev pub closes_due : Iterable → ℕ
closes_due no_iterable = 0
closes_due (wrapper fd) = 1
closes_due (other_iterable true) = 1
closes_due (other_iterable false) = 0

pub request_clean_lem : (r : Request) → request_clean r ≡ closes_due r.iterable
unfolding request_clean
request_clean_lem r = go r.iterable
  where
    go : (it : Iterable) → request_clean (record r { iterable = it }) ≡ closes_due it
    go no_iterable = refl
    go (wrapper fd) = refl
    go (other_iterable true) = refl
    go (other_iterable false) = refl

-- How many `close` calls a connection still owes to the iterable that it holds.
abbrev pub open_while : Watcher → Request → ℕ
open_while stopped r = 0
open_while _ r = closes_due r.iterable

unfoldable pub open_iterables : Connection → ℕ
open_iterables c = open_while c.watcher c.request

-- The switch of the handler calls `close` where the connection lets go of its iterable.
switch-closing :
    (state : RwState) (c : Connection)
    → c.watcher ≡ writing
    → (write_switch state c).iterables_closed + open_iterables (write_switch state c)
      ≡ c.iterables_closed + closes_due c.request.iterable
unfolding open_iterables ev_io_on_write close_connection request_reset
switch-closing not_yet_done c w = ap (λ v. c.iterables_closed + open_while v c.request) w
switch-closing done c w =
    let lem = request_clean_lem c.request in
    either
      (λ (d : Connection).
        d.iterables_closed + open_while d.watcher d.request
        ≡ c.iterables_closed + closes_due c.request.iterable)
      c.request.state.keep_alive _ _ (omega (arith, lem)) (omega (arith, lem))
switch-closing expect_continue c w = refl
switch-closing aborted c w = omega (arith, request_clean_lem c.request)

write_done-closing :
    (c c' : Connection) (res : Option (Out RwState))
    → c.watcher ≡ writing
    → Keeps c.request.iterable res
    → write_done c res ≡ some c'
    → c'.iterables_closed + open_iterables c' ≡ c.iterables_closed + closes_due c.request.iterable
write_done-closing c c' none w k e =
    absurd (let bad : ◌≡◌ {A = Option Connection} none (some c') = e in cc)
write_done-closing c c' (some (r, out, state)) w k e =
    let d = write_switch (overridden r state) (record c { request = r; wire = c.wire ++ out }) in
    let same : d ≡ c' = (let e' : some d ≡ some c' = e in cc) in
    subst
      (λ x.
        x.iterables_closed + open_iterables x ≡ c.iterables_closed + closes_due c.request.iterable)
      same
      (switch-closing (overridden r state) (record c { request = r; wire = c.wire ++ out }) w
        ∙ ap (λ n. c.iterables_closed + n) (ap closes_due k))

-- Whatever the system calls return, a call of the write handler on a connection that waits to
-- write, unless it faults, calls `close` just where the connection lets go of its iterable, once if
-- that has such a method and never if not: the number of calls made and of those still owed to the
-- iterable that the connection holds add up to what they were before.
pub ev_io_on_write_closing :
    (io : Io) (c c' : Connection)
    → c.watcher ≡ writing
    → ev_io_on_write io c ≡ some c'
    → c'.iterables_closed + open_iterables c' ≡ c.iterables_closed + open_iterables c
unfolding ev_io_on_write
ev_io_on_write_closing io c c' w e =
    write_done-closing c c' (write_response io c.request.iterable c.request) w
      (write_response-Keeps io c.request.iterable c.request) e
    ∙ (unfold open_iterables in ap (λ v. c.iterables_closed + open_while v c.request) (sym w))

pub clean_unanswered : (r : Request) → r.iterable ≡ no_iterable → closes_due r.iterable ≡ 0
clean_unanswered r e = ap closes_due e
