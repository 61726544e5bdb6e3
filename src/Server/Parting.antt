-- ===== src/Server/Parting.antt =====
-- Connections of bjoern/server.c that are not kept alive: what the write handler makes of them.
use bjoern.Common.{
  ℕ, ◌+◌, ◌≡◌, refl, ◌∙◌, Bool, true, false, Option, none, some, [], ◌∷◌, Bytes, length, arith,
  ◌==◌, if◌then◌else◌, Bool-cases, inl, inr,
}
use bjoern.Python.{
  StartArgs, wrong_count, start_args, absent, malformed, triple, bytes_item, other_item, Iter, call,
  yield, stop, raise,
}
use bjoern.Request.{
  Request, Chunk, no_chunk, chunk, dangling, Iterable, no_iterable, wrapper, other_iterable,
}
use bjoern.Response.{start_response, Next, next_chunk, ended, failed, get_next_chunk}
use bjoern.Server.{RwState, expect_continue, IoResult, sent, would_block, io_failed}
use bjoern.Server.Write.{
  Out, Io, do_send_chunk, send_chunk, has_rest, advance, hang_up, send_terminator_chunk, after_next,
  following_chunk, emit, chunk_sent, on_write_chunk, do_sendfile, head_sent, file_sent,
  on_write_sendfile, sendfile_phase, write_response,
}

-- The connection is not kept alive, and no `100 Continue` is on its way.
abbrev pub IsParting : Request → Type 0
IsParting r = (r.state.keep_alive ≡ false) × (r.state.expect_continue ≡ false)

start_response-state :
    (r : Request) (args : StartArgs)
    → ((start_response r args).0.state.keep_alive ≡ r.state.keep_alive)
      × ((start_response r args).0.state.expect_continue ≡ r.state.expect_continue)
unfolding start_response
start_response-state r wrong_count = (ground arith, ground arith)
start_response-state r (start_args status headers absent) = (ground arith, ground arith)
start_response-state r (start_args status headers malformed) = (ground arith, ground arith)
start_response-state r (start_args status headers triple) = (ground arith, ground arith)

get_next_chunk-IsParting :
    (it : Iter) (r : Request) → IsParting r → IsParting (get_next_chunk it r).0
unfolding get_next_chunk
get_next_chunk-IsParting (call args k) r h =
    let (keep, quiet) = start_response-state r args in
    get_next_chunk-IsParting (k (start_response r args).1) (start_response r args).0
      (keep ∙ h.0, quiet ∙ h.1)
get_next_chunk-IsParting (yield (bytes_item []) it) r h = get_next_chunk-IsParting it r h
get_next_chunk-IsParting (yield (bytes_item (c ∷ cs)) it) r h = h
get_next_chunk-IsParting (yield other_item it) r h = h
get_next_chunk-IsParting stop r h = h
get_next_chunk-IsParting raise r h = h

-- The request that a call leaves, unless it faults.
abbrev pub Parts : {A : Type 0} → Option (Out A) → Type 0
Parts none = Unit
Parts (some (r, out, a)) = IsParting r

pub either-Parts :
    {A : Type 0} (b : Bool) (s t : Option (Out A)) → Parts s → Parts t → Parts (if b then s else t)
either-Parts true s t p q = p
either-Parts false s t p q = q

advance-Parts : (s : Bytes) (n : ℕ) (r : Request) → IsParting r → Parts (advance s n r)
advance-Parts s n r h = either-Parts (r.current_chunk_p + n == length s) _ _ h h

do_send_chunk-Parts : (io : IoResult) (r : Request) → IsParting r → Parts (do_send_chunk io r)
unfolding do_send_chunk hang_up
do_send_chunk-Parts io r h = go io r.current_chunk
  where
    go : (io : IoResult) (ch : Chunk) → Parts (send_chunk io ch r)
    go (sent n) (chunk s) =
        either-Parts (has_rest s r.current_chunk_p) _ none (advance-Parts s n r h) tt
    go would_block (chunk s) = either-Parts (has_rest s r.current_chunk_p) _ none h tt
    go io_failed (chunk s) = either-Parts (has_rest s r.current_chunk_p) _ none (refl, h.1) tt
    go _ no_chunk = tt
    go _ dangling = tt

-- The same, with a state other than a wait for `100 Continue`.
abbrev pub IsSettled : RwState → Type 0
IsSettled expect_continue = ⊥
IsSettled _ = Unit

abbrev pub Settles : Option (Out RwState) → Type 0
Settles none = Unit
Settles (some (r, out, state)) = IsParting r × IsSettled state

send_terminator_chunk-Settles :
    (r : Request) → IsParting r → Settles (emit [] (send_terminator_chunk r))
unfolding send_terminator_chunk
send_terminator_chunk-Settles r h = elim (Bool-cases r.state.chunked_response) [
  | inl on ↦ elim (Bool-cases (r.current_chunk_p == 0)) [
    | inl z ↦ rw (on, z) (h, tt)
    | inr z ↦ rw (on, z) tt
  ]
  | inr off ↦ rw off (h, tt)
]

after_next-Settles : (res : Request × Next) → IsParting res.0 → Settles (emit [] (after_next res))
after_next-Settles (r, next_chunk c) h = elim (Bool-cases (r.current_chunk_p == 0)) [
  | inl z ↦ rw z (h, tt)
  | inr z ↦ rw z tt
]
after_next-Settles (r, failed) h = (h, tt)
after_next-Settles (r, ended) h = send_terminator_chunk-Settles (record r { iterator = none }) h

following_chunk-Settles :
    (it : Option Iter) (r : Request) → IsParting r → Settles (emit [] (following_chunk it r))
following_chunk-Settles none r h = send_terminator_chunk-Settles r h
following_chunk-Settles (some it) r h =
    after_next-Settles (get_next_chunk it r) (get_next_chunk-IsParting it r h)

emit-Settles :
    (out : Bytes) (res : Option (Request × RwState))
    → Settles (emit [] res)
    → Settles (emit out res)
emit-Settles out none h = h
emit-Settles out (some (r, state)) h = h

pub chunk_sent-Settles : (res : Option (Out Bool)) → Parts res → Settles (chunk_sent res)
chunk_sent-Settles none h = h
chunk_sent-Settles (some (r, out, true)) h = (h, tt)
chunk_sent-Settles (some (r, out, false)) h =
    emit-Settles out (following_chunk r.iterator r) (following_chunk-Settles r.iterator r h)

pub head_sent-Settles :
    (offset : Option ℕ) (res : Option (Out Bool)) → Parts res → Settles (head_sent offset res)
head_sent-Settles offset none h = h
head_sent-Settles offset (some (r, out, true)) h = (h, tt)
head_sent-Settles none (some (r, out, false)) h = (h, tt)
head_sent-Settles (some offset) (some (r, out, false)) h = (h, tt)

do_sendfile-Settles :
    (file : Bytes) (io : IoResult) (r : Request)
    → IsParting r
    → Settles (file_sent (do_sendfile file io r))
unfolding do_sendfile hang_up
do_sendfile-Settles file (sent n) r h = elim (Bool-cases (n == 0)) [
  | inl z ↦ rw z (h, tt)
  | inr z ↦ rw z (h, tt)
]
do_sendfile-Settles file would_block r h = (h, tt)
do_sendfile-Settles file io_failed r h = ((refl, h.1), tt)

pub write_response-Settles :
    (io : Io) (it : Iterable) (r : Request) → IsParting r → Settles (write_response io it r)
unfolding on_write_chunk on_write_sendfile
write_response-Settles io (wrapper (some fd)) r h = go r.current_chunk
  where
    go : (ch : Chunk) → Settles (sendfile_phase io ch r)
    go no_chunk = do_sendfile-Settles io.file io.file_io r h
    go (chunk s) = head_sent-Settles io.seek _ (do_send_chunk-Parts io.written r h)
    go dangling = head_sent-Settles io.seek _ (do_send_chunk-Parts io.written r h)
write_response-Settles io (wrapper none) r h =
    chunk_sent-Settles _ (do_send_chunk-Parts io.written r h)
write_response-Settles io no_iterable r h =
    chunk_sent-Settles _ (do_send_chunk-Parts io.written r h)
write_response-Settles io (other_iterable has_close) r h =
    chunk_sent-Settles _ (do_send_chunk-Parts io.written r h)
