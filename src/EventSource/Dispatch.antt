-- ===== src/EventSource/Dispatch.antt =====
-- handle_events of a source with a writing and an error callback only.
use mutiplex.Base.{ℕ, ◌≡◌, refl, ap, ◌∙◌, Bool, true, false, Option, none, some}
use mutiplex.EventSource.{
  Callbacks, has_ops, epollerr, epollout, epollhup, epollin, handle_events, closed_or_ready,
  read_then_write, on_event, run_if_set, or_else,
}

module _ {S : Type 0} (disable write error : S → S) where
  abbrev pub write_or_error : Callbacks S
  write_or_error = record {
    read_callback = none;
    write_callback = some write;
    close_callback = none;
    error_callback = some error;
  }

  pub handle_events-error :
      (ready : ℕ) (s : S)
      → has_ops ready epollerr ≡ true
      → handle_events disable write_or_error ready s ≡ disable (error s)
  unfolding handle_events
  handle_events-error ready s e =
      ap
        (λ t.
          or_else (on_event t (some error)) disable s
            (closed_or_ready disable write_or_error ready s))
        e

  pub handle_events-write :
      (ready : ℕ) (s : S)
      → has_ops ready epollerr ≡ false
      → has_ops ready epollout ≡ true
      → handle_events disable write_or_error ready s ≡ write s
  unfolding handle_events closed_or_ready read_then_write
  handle_events-write ready s e o =
      ap
        (λ t.
          or_else (on_event t (some error)) disable s
            (closed_or_ready disable write_or_error ready s))
        e
      ∙ unclosed (has_ops ready epollhup)
      ∙ unread (has_ops ready epollin)
      ∙ ap (λ t. run_if_set (on_event t (some write)) s) o
    where
      unclosed :
          (t : Bool)
          → or_else (on_event t none) disable s (read_then_write write_or_error ready s)
            ≡ read_then_write write_or_error ready s
      unclosed true = refl
      unclosed false = refl

      unread :
          (t : Bool)
          → run_if_set
              (on_event (has_ops ready epollout) (some write))
              (run_if_set (on_event t none) s)
            ≡ run_if_set (on_event (has_ops ready epollout) (some write)) s
      unread true = refl
      unread false = refl

-- A callback that is set keeps the property.
abbrev pub KeptBy {ℓ} : {S : Type 0} → (S → Type ℓ) → Option (S → S) → Type ℓ
KeptBy P none = Unit
KeptBy {S} P (some handle) = (s : S) → P s → P (handle s)

module _ {ℓ} {S : Type 0} (P : S → Type ℓ) where
  run_if_set-keeps :
      (t : Bool) (handle : Option (S → S)) (s : S)
      → KeptBy P handle
      → P s
      → P (run_if_set (on_event t handle) s)
  run_if_set-keeps false handle s k h = h
  run_if_set-keeps true none s k h = h
  run_if_set-keeps true (some handle) s k h = k s h

  or_else-keeps :
      (t : Bool) (handle : Option (S → S)) (disable : S → S) (s rest : S)
      → KeptBy P handle
      → ((s : S) → P s → P (disable s))
      → P s
      → P rest
      → P (or_else (on_event t handle) disable s rest)
  or_else-keeps false handle disable s rest k d h r = r
  or_else-keeps true none disable s rest k d h r = r
  or_else-keeps true (some handle) disable s rest k d h r = d (handle s) (k s h)

  -- What the callbacks and disable_all keep, handle_events keeps, whatever events are ready.
  pub handle_events-keeps :
      (disable : S → S) (cb : Callbacks S) (ready : ℕ) (s : S)
      → KeptBy P cb.read_callback
      → KeptBy P cb.write_callback
      → KeptBy P cb.close_callback
      → KeptBy P cb.error_callback
      → ((s : S) → P s → P (disable s))
      → P s
      → P (handle_events disable cb ready s)
  unfolding handle_events closed_or_ready read_then_write
  handle_events-keeps disable cb ready s r w c e d h =
      or_else-keeps (has_ops ready epollerr) cb.error_callback disable s _ e d h (
        or_else-keeps (has_ops ready epollhup) cb.close_callback disable s _ c d h (
          run_if_set-keeps (has_ops ready epollout) cb.write_callback _ w
            (run_if_set-keeps (has_ops ready epollin) cb.read_callback s r h)))
