-- ===== src/Server/Left.antt =====
-- What is left to send on a connection of bjoern/server.c, which every call of the write handler
-- keeps together with what is written.
use bjoern.Common.{
  ◌≤◌, append-nil, true, [], none, ◌⊎◌, length, min, ◌+◌, ap, Bytes, ◌++◌, ℕ, ◌+◌, ◌≡◌, inl, inr,
  refl, sym, subst, ap, ◌∙◌, false, some, Option-cases, Bool,
}
use bjoern.Request.Parse.{request_parse}
use bjoern.Server.{
  RwState, not_yet_done, done, aborted, expect_continue, Watcher, continue_message, Connection,
  reading, writing, stopped,
}
use bjoern.Server.Write.{write_done, ev_io_on_write}
use bjoern.Server.Read.{
  after_parse, read_switch, Surroundings, ReadResult, received, disconnected, read_would_block,
  read_failed, ev_io_on_read,
}
use bjoern.Request.{Request, chunk, Iterable, no_iterable, wrapper, other_iterable}
use bjoern.Server.File.{file_io, left_of_file}
use bjoern.Server.FileDelivery.{SendsOn, SendsOn-ev_io_on_write}
use bjoern.Server.Between.{IsPlain}
use bjoern.Server.Fresh.{IsFresh-IsPlain}
use bjoern.Server.Stream.{is_kept, pending, pending_of, unsent, encode_rest, encode, is_kept}
use bjoern.Server.Delivery.{
  write_response_plain, chunk_io, IsFinished, Delivers, Delivers-ev_io_on_write,
}
use bjoern.Server.Continue.{continued, IsContinuing, continued-IsFresh, continue_written}
use bjoern.Server.Valid.{
  IsValid, is_reading, is_writing, is_sending_file, is_continuing, is_stopped,
}

-- A `write` of `100 Continue` has room for all of it.
abbrev pub HasRoom : ℕ → Request → Type 0
HasRoom room r = (r.state.expect_continue ≡ false) ⊎ (length continue_message ≤ room)

-- What is left to send, where a file with a descriptor is read from an offset.
abbrev pub rest_of : Iterable → Bytes → ℕ → Request → Bytes
rest_of (wrapper (some fd)) file offset r =
    left_of_file file offset r.current_chunk r.current_chunk_p
rest_of _ file offset r = pending r

abbrev pub left_while : Watcher → Bytes → ℕ → Request → Bytes
left_while writing file offset r = rest_of r.iterable file offset r
left_while _ file offset r = []

unfoldable pub left_to_send : Bytes → ℕ → Connection → Bytes
unfolding pending
left_to_send file offset c = left_while c.watcher file offset c.request

-- Reading writes nothing.
pub ev_io_on_read-wire :
    (env : Surroundings) (result : ReadResult) (c : Connection)
    → (ev_io_on_read env result c).wire ≡ c.wire
unfolding ev_io_on_read
ev_io_on_read-wire env (received n x) c =
    go (after_parse env (request_parse env.base x n c.request)).1
      (after_parse env (request_parse env.base x n c.request)).0
  where
    go :
        (state : RwState) (r : Request)
        → (read_switch state (record c { request = r })).wire ≡ c.wire
    go not_yet_done r = refl
    go done r = refl
    go aborted r = refl
    go expect_continue r = refl
ev_io_on_read-wire env disconnected c = refl
ev_io_on_read-wire env read_would_block c = refl
ev_io_on_read-wire env read_failed c = refl

-- The connection is valid, and what is written and what is left to send make up `stream`.
abbrev pub IsOn : Bytes → ℕ → Bytes → Connection → Type 0
IsOn file offset stream c = IsValid c × (c.wire ++ left_to_send file offset c ≡ stream)

rest_of_plain :
    (it : Iterable) (file : Bytes) (offset : ℕ) (r : Request)
    → IsPlain it
    → rest_of it file offset r ≡ pending r
rest_of_plain no_iterable file offset r plain = refl
rest_of_plain (wrapper none) file offset r plain = refl
rest_of_plain (wrapper (some fd)) file offset r plain = absurd plain
rest_of_plain (other_iterable has_close) file offset r plain = refl

pub left_streaming :
    (file : Bytes) (offset : ℕ) (c : Connection)
    → c.watcher ≡ writing
    → IsPlain c.request.iterable
    → left_to_send file offset c ≡ pending c.request
unfolding left_to_send
left_streaming file offset c w plain =
    ap (λ v. left_while v file offset c.request) w
    ∙ rest_of_plain c.request.iterable file offset c.request plain

left_file :
    (file : Bytes) (offset : ℕ) (c : Connection) (fd : ℕ)
    → c.watcher ≡ writing
    → c.request.iterable ≡ wrapper (some fd)
    → left_to_send file offset c
      ≡ left_of_file file offset c.request.current_chunk c.request.current_chunk_p
unfolding left_to_send
left_file file offset c fd w e =
    ap (λ v. left_while v file offset c.request) w ∙ ap (λ it. rest_of it file offset c.request) e

pub left_reading :
    (file : Bytes) (offset : ℕ) (c : Connection)
    → c.watcher ≡ reading
    → left_to_send file offset c ≡ []
unfolding left_to_send
left_reading file offset c w = ap (λ v. left_while v file offset c.request) w

left_stopped :
    (file : Bytes) (offset : ℕ) (c : Connection)
    → c.watcher ≡ stopped
    → left_to_send file offset c ≡ []
unfolding left_to_send
left_stopped file offset c w = ap (λ v. left_while v file offset c.request) w

left_continuing :
    (file : Bytes) (offset : ℕ) (c : Connection)
    → c.watcher ≡ writing
    → IsContinuing c.request
    → left_to_send file offset c ≡ continue_message
left_continuing file offset c w h =
    left_streaming file offset c w (IsFresh-IsPlain c.request h.fresh)
    ∙ pending_of c.request (chunk continue_message) 0 false none h.message h.fresh.at_start
        h.fresh.unchunked h.fresh.no_iterator
    ∙ (unfold unsent encode_rest encode in append-nil continue_message)

-- Nothing is left.
all_sent :
    (file : Bytes) (offset : ℕ) (c : Connection) (stream : Bytes)
    → c.wire ≡ stream
    → left_to_send file offset c ≡ []
    → c.wire ++ left_to_send file offset c ≡ stream
all_sent file offset c stream same e = ap (λ t. c.wire ++ t) e ∙ append-nil c.wire ∙ same

IsFinished-IsOn :
    (file : Bytes) (offset : ℕ) (kept : Bool) (stream : Bytes) (c : Connection)
    → IsFinished kept stream 0 c
    → IsOn file offset stream c
IsFinished-IsOn file offset kept stream c (same, inl (k, w, fd, ready)) =
    (is_reading w ready.fresh fd, all_sent file offset c stream same (left_reading file offset c w))
IsFinished-IsOn file offset kept stream c (same, inr (k, w, fd)) =
    (is_stopped w fd, all_sent file offset c stream same (left_stopped file offset c w))

Delivers-IsOn :
    (file : Bytes) (offset : ℕ) (kept : Bool) (stream : Bytes) (c : Connection)
    → Delivers kept stream 0 (some c)
    → IsOn file offset stream c
Delivers-IsOn file offset kept stream c (inl (w, streaming, same, fd, k)) = (
  is_writing w streaming fd,
  ap (λ t. c.wire ++ t) (left_streaming file offset c w streaming.plain) ∙ same,
)
Delivers-IsOn file offset kept stream c (inr over) = IsFinished-IsOn file offset kept stream c over

SendsOn-IsOn :
    (file : Bytes) (offset : ℕ) (kept : Bool) (stream : Bytes) (written : ℕ) (c : Connection)
    → SendsOn file offset kept stream 0 written (some c)
    → IsOn file offset stream c
SendsOn-IsOn file offset kept stream written c (inl (w, sending, same, fd, grown, k)) = (
  is_sending_file w sending fd,
  ap (λ t. c.wire ++ t) (left_file file offset c sending.descriptor.0 w sending.descriptor.1)
      ∙ same,
)
SendsOn-IsOn file offset kept stream written c (inr over) =
    IsFinished-IsOn file offset kept stream c over

-- A response that is sent in chunks does not look at the file.
without_file :
    (room : ℕ) (file : Bytes) (offset : ℕ) (c : Connection)
    → IsPlain c.request.iterable
    → ev_io_on_write (file_io room file offset c.request) c
      ≡ ev_io_on_write (chunk_io room c.request) c
unfolding ev_io_on_write file_io chunk_io
without_file room file offset c plain = ap (write_done c) (
    write_response_plain (file_io room file offset c.request) c.request.iterable c.request plain
    ∙ sym (write_response_plain (chunk_io room c.request) c.request.iterable c.request plain))

-- Where the connection waits to write, the handler does not fault, and what it leaves is valid,
-- with the same stream.
pub write_ready :
    (room : ℕ) (file : Bytes) (offset : ℕ) (c : Connection)
    → c.watcher ≡ writing
    → HasRoom room c.request
    → IsValid c
    → (c' : Connection) × (ev_io_on_write (file_io room file offset c.request) c ≡ some c')
      × IsValid c'
      × (c'.wire ++ left_to_send file offset c' ≡ c.wire ++ left_to_send file offset c)
write_ready room file offset c w has_room (is_reading w' fresh fd) =
    absurd (let e : reading ≡ writing = sym w' ∙ w in cc)
write_ready room file offset c w has_room (is_stopped w' fd) =
    absurd (let e : stopped ≡ writing = sym w' ∙ w in cc)
write_ready room file offset c w has_room (is_writing w' streaming fd) =
    let stream = c.wire ++ pending c.request in
    let kept = is_kept c.request in
    let step =
      subst (λ k. Delivers kept stream k (ev_io_on_write (chunk_io room c.request) c)) fd
        (Delivers-ev_io_on_write room c w streaming) in
    elim (Option-cases (ev_io_on_write (chunk_io room c.request) c)) [
      | inl e ↦ absurd (subst (Delivers kept stream 0) e step)
      | inr (c', e) ↦
          let on =
            Delivers-IsOn file offset kept stream c' (subst (Delivers kept stream 0) e step) in
          (
            c',
            without_file room file offset c streaming.plain ∙ e,
            on.0,
            on.1 ∙ ap (λ t. c.wire ++ t) (sym (left_streaming file offset c w streaming.plain)),
          )
    ]
write_ready room file offset c w has_room (is_sending_file w' sending fd) =
    let io = file_io room file offset c.request in
    let stream =
      c.wire ++ left_of_file file offset c.request.current_chunk c.request.current_chunk_p in
    let written = length c.wire + min room 1 in
    let kept = c.request.state.keep_alive in
    let step =
      subst (λ k. SendsOn file offset kept stream k written (ev_io_on_write io c)) fd
        (SendsOn-ev_io_on_write room file offset c w sending) in
    elim (Option-cases (ev_io_on_write io c)) [
      | inl e ↦ absurd (subst (SendsOn file offset kept stream 0 written) e step)
      | inr (c', e) ↦
          let on =
            SendsOn-IsOn file offset kept stream written c'
              (subst (SendsOn file offset kept stream 0 written) e step) in
          (
            c',
            e,
            on.0,
            on.1
                ∙ ap (λ t. c.wire ++ t)
                    (sym (left_file file offset c sending.descriptor.0 w sending.descriptor.1)),
          )
    ]
write_ready room file offset c w (inl quiet) (is_continuing w' h fd) =
    absurd (let e : true ≡ false = sym h.waits ∙ quiet in cc)
write_ready room file offset c w (inr enough) (is_continuing w' h fd) =
    let c' = record c {
      request = continued c.request;
      watcher = reading;
      wire = c.wire ++ continue_message;
    } in
    (
      c',
      continue_written room file offset c h enough,
      is_reading refl (continued-IsFresh c.request h.fresh) fd,
      all_sent file offset c' (c.wire ++ continue_message) refl (left_reading file offset c' refl)
          ∙ ap (λ t. c.wire ++ t) (sym (left_continuing file offset c w h)),
    )
