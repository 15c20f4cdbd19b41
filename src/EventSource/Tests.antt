-- ===== src/EventSource/Tests.antt =====
-- A life of a source.
use mutiplex.Base.{refl, [], ◌∷◌, none}
use mutiplex.Base.Int.{pos}
use mutiplex.EventSource.{
  new, enable_ops, disable_ops, enable_reading, disable_reading, enable_writing, disable_writing,
  set_interest_ops,
}
use mutiplex.EventSource.Protocol.{
  read_on, write_on, write_off, read_off, all_off, silenced, apply, run, run-Accepted, Accepted,
}

run-Accepted_example : Accepted none (
    run
      (new (pos 7))
      (read_on ∷ write_on ∷ write_off ∷ silenced ∷ read_on ∷ read_off ∷ all_off ∷ []))
unfolding new apply enable_ops disable_ops enable_reading disable_reading enable_writing
    disable_writing set_interest_ops
run-Accepted_example =
    run-Accepted (read_on ∷ write_on ∷ write_off ∷ silenced ∷ read_on ∷ read_off ∷ all_off ∷ [])
      (new (pos 7)) none (refl, refl) (tt, (tt, (tt, (tt, (tt, (tt, (tt, tt)))))))
