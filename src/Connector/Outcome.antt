-- ===== src/Connector/Outcome.antt =====
-- How an attempt to connect ends.
use mutiplex.Base.{
  arith, append-nil, ℕ, zero, suc, ◌+◌, ◌≡◌, refl, sym, ap, ◌∙◌, Bool, true, false, ◌||◌,
  if◌then◌else◌, ok, ◌>>=◌, List, [], ◌∷◌, ◌++◌, Option, none, some, Bool-cases, inl, inr,
}
use mutiplex.Base.Int.{ℤ}
use mutiplex.Base.Memory.{Allocator}
use mutiplex.ByteBuffer.{ByteBuffer}
use mutiplex.EventSource.{has_ops, epollerr, epollout, add, delete}
use mutiplex.EventSource.Fresh.{idle, disable_writing-watching, disable_all-watching}
use mutiplex.EventSource.Dispatch.{handle_events-error, handle_events-write}
use mutiplex.InetAddress.{InetAddress}
use mutiplex.Connection
use mutiplex.Connection.Context.{Callback, established, Request, World}
use mutiplex.Connection.Requests.{Sized}
use mutiplex.Connection.Opening.{started, told, told_lem, on_new_connection-Notifies}
use mutiplex.Connector.Attempt.{fresh, waiting, woken, start_waiting, attempt}
use mutiplex.Connector.{
  Connector, Life, Event, epoll, connect_failed, fd_closed, ConnectAnswer, connected, in_progress,
  refused, failure, handle_error, start_connect, do_connect, new_connection, local_name, hand_over,
  connected_with, handle_connected, callbacks, disable, on_event, with_source, with_connection,
}

-- The descriptors that are closed, and the calls of the error callback.
abbrev pub closed_fds : List Event → List ℤ
closed_fds [] = []
closed_fds (epoll call ∷ es) = closed_fds es
closed_fds (connect_failed ∷ es) = closed_fds es
closed_fds (fd_closed fd ∷ es) = fd ∷ closed_fds es

abbrev pub failures : List Event → ℕ
failures [] = 0
failures (epoll call ∷ es) = failures es
failures (connect_failed ∷ es) = suc (failures es)
failures (fd_closed fd ∷ es) = failures es

-- The two ways in which an attempt of `c` may end: its descriptor is closed, once, after the error
-- callback was called, once if it is set; or a connection has taken it over, and it is not closed.
pub data Outcome (c : Connector) (life : Life) : Type 0 where
  failed :
      life.connection ≡ none
      → closed_fds life.events ≡ c.fd ∷ []
      → failures life.events ≡ (if c.connect_error_callback then 1 else 0)
      → Outcome c life
  served :
      (w : World)
      → life.connection ≡ some w
      → w.conn.fd ≡ c.fd
      → closed_fds life.events ≡ []
      → failures life.events ≡ 0
      → Outcome c life

failure_lem :
    (set : Bool) (fd : ℤ) (es : List Event)
    → (closed_fds (failure set fd ++ es) ≡ fd ∷ closed_fds es)
      × (failures (failure set fd ++ es) ≡ (if set then 1 else 0) + failures es)
failure_lem true fd es = (refl, omega arith)
failure_lem false fd es = (refl, omega arith)

failed_now :
    (buffer : Option ByteBuffer) (c : Connector)
    → Outcome c (start_connect refused (fresh buffer c))
unfolding start_connect do_connect handle_error
failed_now buffer c =
    let (a, b) = failure_lem c.connect_error_callback c.fd [] in
    failed refl (ap closed_fds (sym (append-nil (failure c.connect_error_callback c.fd))) ∙ a)
      (ap failures (sym (append-nil (failure c.connect_error_callback c.fd))) ∙ b ∙ omega arith)

module _ (heap : Allocator) (app : Callback → List Request) where
  connected-Outcome :
      (error : ℕ) (name : Option InetAddress) (buffer : Option ByteBuffer) (c : Connector)
      → Sized (app established)
      → (life : Life) × (connected_with heap app error name (woken buffer c) ≡ ok life)
        × Outcome c life
  unfolding connected_with hand_over handle_error new_connection Connection.new
      Connection.set_established_callback Connection.set_read_callback
      Connection.set_closed_callback
  connected-Outcome zero name buffer c sized =
      let (ts, e) =
        on_new_connection-Notifies heap app (new_connection (woken buffer c) (local_name name))
          sized in
      let w =
        told c.established_callback (started (new_connection (woken buffer c) (local_name name)))
          ts in
      let (same, listed, events) =
        told_lem c.established_callback
          (started (new_connection (woken buffer c) (local_name name))) ts in
      (
        with_connection (woken buffer c) (local_name name) w,
        ap (λ r. r >>= λ w. ok (with_connection (woken buffer c) (local_name name) w)) e,
        served w refl (ap (λ conn. conn.fd) same) refl refl,
      )
  connected-Outcome (suc error) name buffer c sized =
      let (a, b) = failure_lem c.connect_error_callback c.fd [] in
      (
        handle_error (woken buffer c),
        refl,
        failed refl (ap closed_fds (sym (append-nil (failure c.connect_error_callback c.fd))) ∙ a) (
            ap failures (sym (append-nil (failure c.connect_error_callback c.fd)))
            ∙ b
            ∙ omega arith),
      )

  event-Outcome :
      (ready error : ℕ) (name : Option InetAddress) (buffer : Option ByteBuffer) (c : Connector)
      → (has_ops ready epollerr || has_ops ready epollout) ≡ true
      → Sized (app established)
      → (life : Life) × (on_event heap app ready error name (waiting buffer c) ≡ ok life)
        × Outcome c life
  unfolding on_event disable callbacks handle_connected handle_error
  event-Outcome ready error name buffer c event sized = elim (Bool-cases (has_ops ready epollerr)) [
    | inl e ↦
        let (a, b) = failure_lem c.connect_error_callback c.fd (epoll (delete c.fd 0) ∷ []) in
        (
          with_source (handle_error (waiting buffer c)) (idle c.fd, delete c.fd 0 ∷ []),
          handle_events-error (disable heap app) (λ r. r >>= handle_connected heap app error name)
                (λ r. r >>= λ life. ok (handle_error life)) ready (ok (waiting buffer c)) e
              ∙ ap (λ change. ok (with_source (handle_error (waiting buffer c)) change))
                  (disable_all-watching c.fd epollout),
          failed refl a (b ∙ omega arith),
        )
    | inr f ↦
        let (life, e, out) = connected-Outcome error name buffer c sized in
        (
          life,
          handle_events-write (disable heap app) (λ r. r >>= handle_connected heap app error name)
                (λ r. r >>= λ life. ok (handle_error life)) ready (ok (waiting buffer c)) f
                (writes f)
              ∙ ap
                  (λ change.
                    connected_with heap app error name (with_source (waiting buffer c) change))
                  (disable_writing-watching c.fd)
              ∙ e,
          out,
        )
  ]
    where
      writes : has_ops ready epollerr ≡ false → has_ops ready epollout ≡ true
      writes f = ap (λ t. t || has_ops ready epollout) (sym f) ∙ event

  -- Whatever ::connect, SO_ERROR and getsockname answer, and whatever an event with EPOLLERR or
  -- EPOLLOUT reports otherwise, a new connector, on any loop, ends in one of the two ways of
  -- `Outcome`, if the application's answer to the established callback writes only blocks of 1 to
  -- 2^31 - 1 bytes.
  pub attempt-Outcome :
      (answer : ConnectAnswer) (ready error : ℕ) (name : Option InetAddress)
      (buffer : Option ByteBuffer) (c : Connector)
      → (has_ops ready epollerr || has_ops ready epollout) ≡ true
      → Sized (app established)
      → (life : Life) × (attempt heap app answer ready error name buffer c ≡ ok life)
        × Outcome c life
  unfolding attempt do_connect
  attempt-Outcome refused ready error name buffer c event sized =
      (start_connect refused (fresh buffer c), refl, failed_now buffer c)
  attempt-Outcome connected ready error name buffer c event sized =
      let (life, e, out) = event-Outcome ready error name buffer c event sized in
      (
        life,
        ap (on_event heap app ready error name) (start_waiting buffer connected c refl) ∙ e,
        out,
      )
  attempt-Outcome in_progress ready error name buffer c event sized =
      let (life, e, out) = event-Outcome ready error name buffer c event sized in
      (
        life,
        ap (on_event heap app ready error name) (start_waiting buffer in_progress c refl) ∙ e,
        out,
      )

  -- An event with EPOLLERR, after a ::connect that did not fail at once: the descriptor is closed
  -- before epoll is asked to delete it, so the request names a descriptor that is closed by then.
  pub error-deletes_closed :
      (answer : ConnectAnswer) (ready error : ℕ) (name : Option InetAddress)
      (buffer : Option ByteBuffer) (c : Connector)
      → do_connect answer ≡ true
      → has_ops ready epollerr ≡ true
      → (life : Life) × (attempt heap app answer ready error name buffer c ≡ ok life)
        × (life.events
            ≡ epoll (add c.fd epollout)
              ∷ (failure c.connect_error_callback c.fd ++ epoll (delete c.fd 0) ∷ []))
  unfolding attempt on_event disable callbacks handle_error
  error-deletes_closed answer ready error name buffer c starts e = (
    with_source (handle_error (waiting buffer c)) (idle c.fd, delete c.fd 0 ∷ []),
    ap
          (λ t.
            if t
            then on_event heap app ready error name (start_connect answer (fresh buffer c))
            else ok (start_connect answer (fresh buffer c)))
          starts
        ∙ ap (on_event heap app ready error name) (start_waiting buffer answer c starts)
        ∙ handle_events-error (disable heap app) (λ r. r >>= handle_connected heap app error name)
            (λ r. r >>= λ life. ok (handle_error life)) ready (ok (waiting buffer c)) e
        ∙ ap (λ change. ok (with_source (handle_error (waiting buffer c)) change))
            (disable_all-watching c.fd epollout),
    refl,
  )
