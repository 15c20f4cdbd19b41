-- ===== src/Connection/Frame.antt =====
-- What a step of a connection leaves as it was.
use mutiplex.Base.{◌≡◌, ◌∙◌}
use mutiplex.Connection.Context.{World}

pub record Frame (w w' : World) : Type 0 where
  pub received : w'.recv_buffer ≡ w.recv_buffer
  pub listed : w'.listed ≡ w.listed
  pub held : w'.held ≡ w.held
  pub destroyed : w'.destroyed ≡ w.destroyed
  pub queue : w'.task_queue ≡ w.task_queue
  pub reads : w'.conn.read_callback ≡ w.conn.read_callback

pub then-Frame : {u v w : World} → Frame u v → Frame v w → Frame u w
then-Frame f g = record {
  received = g.received ∙ f.received;
  listed = g.listed ∙ f.listed;
  held = g.held ∙ f.held;
  destroyed = g.destroyed ∙ f.destroyed;
  queue = g.queue ∙ f.queue;
  reads = g.reads ∙ f.reads;
}
