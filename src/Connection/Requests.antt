-- ===== src/Connection/Requests.antt =====
-- What the application's answer to a callback does: it only posts tasks.
use mutiplex.Base.{
  take-of_length_le, ℕ, ◌^◌, ◌<◌, ◌≡◌, refl, sym, ap, ◌∙◌, Bool, true, false, Result, ok, List, [],
  ◌∷◌, ◌++◌, append-nil, append_assoc, length, Bool-cases, inl, inr, arith, if◌then◌else◌,
}
use mutiplex.Base.Int.{pos}
use mutiplex.Base.Word.{int32}
use mutiplex.Base.Memory.{Bytes, Allocator}
use mutiplex.ByteBuffer.Transfer.{readable, filled-readable}
use mutiplex.ByteBuffer.{ByteBuffer}
use mutiplex.Connection.Context.{
  receiving, Callback, Request, write_bytes, write_buffer, close_it, force_close_it, Task,
  close_task, force_close_task, write_raw, write_shared, called, World, emit, post,
}
use mutiplex.Connection.{
  is_closed_state, is_closed, write, write_shared_buffer, close, force_close, perform, invoke,
}

-- Writes of 1 to 2^31 - 1 bytes: others fail an assertion of ByteBuffer.
abbrev pub Sized : List Request → Type 0
Sized [] = Unit {0}
Sized (write_bytes xs ∷ rest) = (0 < length xs) × (length xs < 2 ^ 31) × Sized rest
Sized (_ ∷ rest) = Sized rest

abbrev pub posted : World → List Task → World
posted w ts = record w { task_queue = w.task_queue ++ ts }

pub int32-small : (n : ℕ) → n < 2 ^ 31 → int32 n ≡ pos n
int32-small n h = ground arith

module _ (heap : Allocator) (app : Callback → List Request) where
  abbrev pub Posts : World → Result World → Type 0
  Posts w r = (ts : List Task) × (r ≡ ok (posted w ts))

  pub posted-nil : (w : World) → w ≡ posted w []
  posted-nil w = ap (λ q. record w { task_queue = q }) (sym (append-nil w.task_queue))

  -- write() of a sized block returns; on a closed connection it posts nothing.
  pub write-Posts :
      (w : World) (xs : Bytes) → 0 < length xs → length xs < 2 ^ 31 → Posts w (write heap app w xs)
  unfolding write
  write-Posts w xs p h = elim (Bool-cases (is_closed w)) [
    | inl gone ↦ rw gone ([], ap ok (posted-nil w))
    | inr open_ ↦
        let (b, made, v, same) = filled-readable heap xs (length xs) p h (omega arith) in
        rw (open_, int32-small (length xs) h, made) (write_raw b ∷ [], refl)
  ]

  -- The write of a callback on a receiving connection, as the task that it posts.
  pub perform-write :
      (w : World) (xs : Bytes) (rest : List Request)
      → w.conn.state ≡ receiving
      → 0 < length xs
      → length xs < 2 ^ 31
      → (b : ByteBuffer) × (readable b ≡ xs)
        × (perform heap app w (write_bytes xs ∷ rest)
            ≡ perform heap app (post w (write_raw b)) rest)
  unfolding perform write is_closed is_closed_state
  perform-write w xs rest open_ p h =
      let (b, made, v, same) = filled-readable heap xs (length xs) p h (omega arith) in
      (
        b,
        same ∙ take-of_length_le (length xs) xs (omega arith),
        rw (open_, int32-small (length xs) h, made) refl,
      )

  pub perform-write_only :
      (w : World) (xs : Bytes)
      → w.conn.state ≡ receiving
      → 0 < length xs
      → length xs < 2 ^ 31
      → (b : ByteBuffer) × (readable b ≡ xs)
        × (perform heap app w (write_bytes xs ∷ []) ≡ ok (post w (write_raw b)))
  unfolding perform
  perform-write_only w xs = perform-write w xs []

  then-Posts : (w : World) (ts : List Task) (r : Result World) → Posts (posted w ts) r → Posts w r
  then-Posts w ts r (us, e) =
      (ts ++ us, e ∙ ap (λ q. ok (record w { task_queue = q })) (append_assoc w.task_queue ts us))

  pub perform-Posts : (rs : List Request) (w : World) → Sized rs → Posts w (perform heap app w rs)
  unfolding perform write_shared_buffer close force_close
  perform-Posts [] w s = ([], ap ok (posted-nil w))
  perform-Posts (write_bytes xs ∷ rest) w (p, h, s) =
      let (ts, e) = write-Posts w xs p h in
      rw e (then-Posts w ts _ (perform-Posts rest (posted w ts) s))
  perform-Posts (write_buffer b ∷ rest) w s = elim (Bool-cases (is_closed w)) [
    | inl gone ↦ rw gone (perform-Posts rest w s)
    | inr open_ ↦
        rw open_
          (then-Posts w (write_shared b ∷ []) _ (perform-Posts rest (post w (write_shared b)) s))
  ]
  perform-Posts (close_it ∷ rest) w s =
      then-Posts w (close_task ∷ []) _ (perform-Posts rest (post w close_task) s)
  perform-Posts (force_close_it ∷ rest) w s =
      then-Posts w (force_close_task ∷ []) _ (perform-Posts rest (post w force_close_task) s)

  abbrev pub Notifies : World → Bool → Callback → Result World → Type 0
  Notifies w set cb r =
      (ts : List Task) × (r ≡ ok (posted (if set then emit w (called cb ∷ []) else w) ts))

  -- For an application whose answer to the callback writes only blocks of 1 to 2^31 - 1 bytes: the
  -- invocation returns; a callback that is set is invoked once, one that is not set is not, and
  -- beyond that the answer only adds tasks at the end of the queue.
  pub invoke-Notifies :
      (set : Bool) (cb : Callback) (w : World)
      → Sized (app cb)
      → Notifies w set cb (invoke heap app set cb w)
  unfolding invoke
  invoke-Notifies false cb w s = ([], ap ok (posted-nil w))
  invoke-Notifies true cb w s = perform-Posts (app cb) (emit w (called cb ∷ [])) s
