-- ===== src/Common/Outbox.antt =====
-- src/common/db/outbox.py
use be_py_eco.Prelude.{none, Text}
use be_py_eco.Schema.{Json, OutboxEvent}
use be_py_eco.World.{Action, next_id, create_outbox_event, ◌>>=◌}

unfoldable pub emit_event : Text → Json → Action OutboxEvent
unfolding create_outbox_event
emit_event event_type payload = do
  id ← next_id
  create_outbox_event
      (record { id = id; event_type = event_type; payload = payload; dispatched_at = none })
