-- ===== src/Server/Valid.antt =====
-- What holds of a connection of bjoern/server.c between two calls of its handlers, and what is left
-- to send on it.
use bjoern.Common.{
  true, none, ◌⊎◌, ◌+◌, ap, ℕ, ◌+◌, ◌≡◌, inl, inr, refl, sym, ap, ◌∙◌, false, some, arith,
  Bool-cases, ◌==◌, ==_iff,
}
use bjoern.Request.Parse.{Execution, request_parse}
use bjoern.Request.Frame.{request_parse-IsParsedFrom}
use bjoern.Server.{Connection, reading, writing, stopped}
use bjoern.Server.Read.{
  Surroundings, ReadResult, received, disconnected, read_would_block, read_failed, ev_io_on_read,
}
use bjoern.Request.{Iterable, no_iterable, wrapper, other_iterable}
use bjoern.Server.File.{IsSendingFile}
use bjoern.Server.Between.{IsPlain, IsStreaming}
use bjoern.Server.Fresh.{IsFresh, IsParsedFrom-IsFresh}
use bjoern.Server.Answer.{
  rejected_request_answered, complete_request_answered, complete_request_file,
}
use bjoern.Server.Continue.{IsContinuing, continue_asked}

-- A read that leaves a wait for `100 Continue` only where the request is not complete.
abbrev pub IsOrdinary : Surroundings → ReadResult → Connection → Type 0
IsOrdinary env (received n x) c =
    let r = request_parse env.base x n c.request in
    (r.state.expect_continue ≡ false)
    ⊎ ((r.state.expect_continue ≡ true)
        × (r.state.error_code ≡ 0)
        × (r.state.parse_finished ≡ false))
IsOrdinary env _ c = Unit

-- A connection reads a request that nothing is sent for, or writes a response that can be sent, or
-- writes `100 Continue`, or is stopped; its descriptor is closed when it is stopped, once.
pub data IsValid (c : Connection) : Type 0 where
  is_reading : c.watcher ≡ reading → IsFresh c.request → c.fd_closed ≡ 0 → IsValid c
  is_writing : c.watcher ≡ writing → IsStreaming c.request → c.fd_closed ≡ 0 → IsValid c
  is_sending_file : c.watcher ≡ writing → IsSendingFile c.request → c.fd_closed ≡ 0 → IsValid c
  is_continuing : c.watcher ≡ writing → IsContinuing c.request → c.fd_closed ≡ 0 → IsValid c
  is_stopped : c.watcher ≡ stopped → c.fd_closed ≡ 1 → IsValid c

pub read_more :
    (env : Surroundings) (n : ℕ) (x : Execution) (c : Connection)
    → let r = request_parse env.base x n c.request in
      r.state.error_code ≡ 0
      → r.state.parse_finished ≡ false
      → r.state.expect_continue ≡ false
      → ev_io_on_read env (received n x) c ≡ record c { request = r }
unfolding ev_io_on_read
read_more env n x c ok incomplete quiet = ground arith

IsPlain-cases : (it : Iterable) → IsPlain it ⊎ ((fd : ℕ) × (it ≡ wrapper (some fd)))
IsPlain-cases no_iterable = inl tt
IsPlain-cases (wrapper none) = inl tt
IsPlain-cases (wrapper (some fd)) = inr (fd, refl)
IsPlain-cases (other_iterable has_close) = inl tt

quiet-IsValid :
    (env : Surroundings) (n : ℕ) (x : Execution) (c : Connection)
    → c.watcher ≡ reading
    → IsFresh c.request
    → c.fd_closed ≡ 0
    → (request_parse env.base x n c.request).state.expect_continue ≡ false
    → IsValid (ev_io_on_read env (received n x) c)
quiet-IsValid env n x c w fresh open_fd quiet =
    let r = request_parse env.base x n c.request in
    elim (Bool-cases (r.state.error_code == 0)) [
      | inl ok ↦
          let ok' = (==_iff r.state.error_code 0).0 ok in
          elim (Bool-cases r.state.parse_finished) [
            | inl complete ↦
                elim (IsPlain-cases (ev_io_on_read env (received n x) c).request.iterable) [
                  | inl plain ↦
                      let (w', streaming, response, fd) =
                        complete_request_answered env n x c fresh ok' complete quiet plain in
                      is_writing w' streaming (fd ∙ open_fd)
                  | inr (file, e) ↦
                      let (w', sending, fd) =
                        complete_request_file env n x c file fresh ok' complete quiet e in
                      is_sending_file w' sending (fd ∙ open_fd)
                ]
            | inr incomplete ↦ rw (read_more env n x c ok' incomplete quiet) (
                is_reading w
                  (IsParsedFrom-IsFresh c.request r
                    (request_parse-IsParsedFrom env.base x n c.request) fresh)
                  open_fd)
          ]
      | inr bad ↦
          let (w', streaming, message, fd) =
            rejected_request_answered env n x c fresh
              (λ e. cc (sym bad ∙ (==_iff r.state.error_code 0).1 e)) quiet in
          is_writing w' streaming (fd ∙ open_fd)
    ]

received-IsValid :
    (env : Surroundings) (n : ℕ) (x : Execution) (c : Connection)
    → c.watcher ≡ reading
    → IsFresh c.request
    → c.fd_closed ≡ 0
    → IsOrdinary env (received n x) c
    → IsValid (ev_io_on_read env (received n x) c)
received-IsValid env n x c w fresh open_fd (inl quiet) =
    quiet-IsValid env n x c w fresh open_fd quiet
received-IsValid env n x c w fresh open_fd (inr (waits, ok, incomplete)) =
    let (w', continuing, fd, wire) = continue_asked env n x c fresh ok incomplete waits in
    is_continuing w' continuing (fd ∙ open_fd)

pub read_step-IsValid :
    (env : Surroundings) (result : ReadResult) (c : Connection)
    → c.watcher ≡ reading
    → IsFresh c.request
    → c.fd_closed ≡ 0
    → IsOrdinary env result c
    → IsValid (ev_io_on_read env result c)
unfolding ev_io_on_read
read_step-IsValid env (received n x) c w fresh open_fd ordinary =
    received-IsValid env n x c w fresh open_fd ordinary
read_step-IsValid env disconnected c w fresh open_fd ordinary =
    is_stopped refl (ap (λ (k : ℕ). k + 1) open_fd)
read_step-IsValid env read_would_block c w fresh open_fd ordinary = is_reading w fresh open_fd
read_step-IsValid env read_failed c w fresh open_fd ordinary =
    is_stopped refl (ap (λ (k : ℕ). k + 1) open_fd)
