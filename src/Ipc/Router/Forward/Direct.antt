-- ===== src/Ipc/Router/Forward/Direct.antt =====
-- A device request that a plugin sends straight to the device, under an id of its own choice.
use veyron.Ipc.Kernel.{Now, IncomingMessage}
use veyron.Prelude.{text_eq, nat_eq, false, Text, ◌+◌}
use veyron.Registry.Types.{PluginEntry, PendingAction}
use veyron.Ipc.Wire.{Wire, ActionRequest}

-- The row that a direct request leaves.
abbrev direct_row : Now → IncomingMessage → Text → PluginEntry → ActionRequest → PendingAction
direct_row now msg sender_id entry req = record {
  requester_write_tx = msg.write_tx;
  original_action_id = req.action_id;
  requester_id = sender_id;
  deadline = now.instant + 30000;
  provider_id = entry.plugin_id;
  streaming = req.streaming;
  session_accepted = false;
  last_activity = now.instant;
}
