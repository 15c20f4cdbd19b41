-- ===== src/Connection/Reading.antt =====
-- The reading callback of a connection: what reaches the application.
use mutiplex.Base.{
  ℕ, ◌≤◌, ◌≡◌, refl, ap, ◌∙◌, if◌then◌else◌, Result, ok, ◌>>=◌, List, [], ◌∷◌, length, some,
}
use mutiplex.Base.Memory.{Bytes, Allocator}
use mutiplex.ByteBuffer
use mutiplex.ByteBuffer.{ByteBuffer}
use mutiplex.ByteBuffer.Invariant.{IsValid, clear-IsValid}
use mutiplex.ByteBuffer.Receive.{placed, filled_block, store_lem, place_lem, received_lem}
use mutiplex.ByteBuffer.Transfer.{readable}
use mutiplex.Connection.Context.{Callback, read, Request, Task, World, deref, emit, called}
use mutiplex.Connection.{handle_read, after_read, invoke}
use mutiplex.Connection.Requests.{Sized, posted, invoke-Notifies}

-- The world after a read: the receive buffer is `full`, and the application is told.
abbrev pub Delivers : Bytes → World → ByteBuffer → Result World → Type 0
Delivers xs w full r =
    (ts : List Task) × (r
      ≡ ok (
          posted
            (if w.conn.read_callback
              then emit (record w { recv_buffer = some full }) (called (read xs) ∷ [])
              else record w { recv_buffer = some full })
            ts))

module _ (heap : Allocator) (app : Callback → List Request) where
  -- What handle_read comes to: the read callback, with the bytes, and with the buffer that holds
  -- them.
  pub handle_read-invokes :
      {c : ℕ} (w : World) (buffer : ByteBuffer) (x : ℕ) (xs : Bytes)
      → w.recv_buffer ≡ some buffer
      → IsValid c buffer
      → length (x ∷ xs) ≤ c
      → (full : ByteBuffer) × IsValid c full
        × (readable full ≡ x ∷ xs)
        × (handle_read heap app (some (x ∷ xs)) w
            ≡ invoke heap app w.conn.read_callback
                (read (x ∷ xs))
                (record w { recv_buffer = some full }))
  unfolding handle_read after_read
  handle_read-invokes w buffer x xs has v room =
      let (b, e, v', start, end, same) = clear-IsValid v in
      let full =
        ByteBuffer.flip (placed b (filled_block v' start end (x ∷ xs) room) (length (x ∷ xs))) in
      let (valid, holds) = received_lem v' start end (x ∷ xs) room in
      (
        full,
        valid,
        holds,
        ap
              (λ o. deref o >>= λ b. ByteBuffer.clear b >>= λ cleared.
                after_read heap app (some (x ∷ xs)) cleared
                  (record w { recv_buffer = some cleared }))
              has
            ∙ ap
                (λ r. r >>= λ cleared.
                  after_read heap app (some (x ∷ xs)) cleared
                    (record w { recv_buffer = some cleared }))
                e
            ∙ rw (store_lem v' start end (x ∷ xs) room, place_lem v' start end (x ∷ xs) room, holds)
                refl,
      )

  -- Bytes that ::read stores, of which there are at least one and at most as many as the valid receive
  -- buffer of the loop has room for, where the answer to the read callback writes only blocks of 1 to
  -- 2^31 - 1 bytes: handle_read returns, the buffer is valid after it and holds exactly these bytes for
  -- reading, and the read callback, if it is set, is called once with them.
  pub handle_read-Delivers :
      {c : ℕ} (w : World) (buffer : ByteBuffer) (x : ℕ) (xs : Bytes)
      → w.recv_buffer ≡ some buffer
      → IsValid c buffer
      → length (x ∷ xs) ≤ c
      → Sized (app (read (x ∷ xs)))
      → (full : ByteBuffer) × IsValid c full
        × (readable full ≡ x ∷ xs)
        × Delivers (x ∷ xs) w full (handle_read heap app (some (x ∷ xs)) w)
  handle_read-Delivers w buffer x xs has v room sized =
      let (full, valid, holds, e) = handle_read-invokes w buffer x xs has v room in
      let (ts, done) =
        invoke-Notifies heap app w.conn.read_callback (read (x ∷ xs))
          (record w { recv_buffer = some full }) sized in
      (full, valid, holds, (ts, e ∙ done))
