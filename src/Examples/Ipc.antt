-- ===== src/Examples/Ipc.antt =====
-- Frames of one plugin to another, over channels that hold up to 64 items.
use veyron.Utils.Errors.{ok}
use veyron.Ipc.Router.Forward.Isolation.{Receives, Delivered, forward_isolation}
use veyron.Registry.State.{get_by_conn_id}
use veyron.Ipc.Router.Broadcast.{broadcast}
use veyron.Ipc.Router.Forward.Authorised.{IsAuthorised, refusal-none_iff}
use veyron.Ipc.Framing.Targets.{target_bytes_injective}
use veyron.Registry.Types.{Sender, PluginEntry}
use veyron.Ipc.Router.Broadcast.Reach.{Grows, Reaches, broadcast_reach}
use veyron.Ipc.Router.Forward.{forward, refusal, retagged}
use veyron.Utils.Validate.{validate_plugin_id, validate_identifier, is_id_byte}
use veyron.Prelude.{
  is_empty, text_beq, all, bytes, text_eq, nat_eq, ◌≡◌, refl, [], ◌∷◌, none, some, true, false,
  arith, if◌then◌else◌, ==_iff, ==_refl, List, Option, Bool, Text, ℕ, ◌≢◌, ◌==◌, ◌++◌, ◌↔◌, ltb,
  ◌⊎◌, length,
}
use veyron.Ipc.Wire.{Wire, Frame, Envelope, envelope_of, action_request, ActionRequest}
use veyron.Ipc.Channels.{Channels, Outbound, out_frame}
use veyron.Ipc.Kernel.{Kernel, Now, IncomingMessage}
use veyron.Examples.Data.{alice, bob, both_registry}

-- What each channel was given.
abbrev pub Stores : Type 0
Stores = Sender → List Outbound

abbrev has_room : Sender → Stores → Bool
has_room tx s = ltb (length (s tx)) 64

pub push : Sender → Outbound → Stores → Stores
push tx m s t = if tx == t then s t ++ m ∷ [] else s t

abbrev pub try_send : Sender → Outbound → Stores → Stores × Bool
try_send tx m s = if has_room tx s then (push tx m s, true) else (s, false)

pub sends :
    (tx : Sender) (m : Outbound) (s : Stores)
    → (try_send tx m s).1 ≡ true
    → (try_send tx m s).0 tx ≡ s tx ++ m ∷ []
unfolding push
sends tx m s h = ground (arith, ==_refl tx)

pub drops :
    (tx : Sender) (m : Outbound) (s : Stores)
    → (try_send tx m s).1 ≡ false
    → (try_send tx m s).0 tx ≡ s tx
drops tx m s h = ground arith

pub spares : (tx t : Sender) (m : Outbound) (s : Stores) → tx ≢ t → (try_send tx m s).0 t ≡ s t
unfolding push
spares tx t m s ne = ground (arith, ==_iff tx t)

pub pushes : (tx : Sender) (m : Outbound) (s : Stores) → push tx m s tx ≡ s tx ++ m ∷ []
unfolding push
pushes tx m s = ground (arith, ==_refl tx)

pub passes_by : (tx t : Sender) (m : Outbound) (s : Stores) → tx ≢ t → push tx m s t ≡ s t
unfolding push
passes_by tx t m s ne = ground (arith, ==_iff tx t)

pub never_dropped : (tx : Sender) (m : Outbound) (s : Stores) → true ≡ false → push tx m s tx ≡ s tx
never_dropped tx m s h = absurd (cc)

abbrev pub stores : Channels Stores
stores = record {
  try_send = try_send;
  taken = λ s tx. s tx;
  taken-sent = sends;
  taken-dropped = drops;
  taken-other = spares;
  send = λ tx m s. (push tx m s, true);
  send-sent = λ tx m s h. pushes tx m s;
  send-dropped = never_dropped;
  send-other = passes_by;
}

-- Channels that are never full.
abbrev pub roomy : Channels Stores
roomy = record {
  try_send = λ tx m s. (push tx m s, true);
  taken = λ s tx. s tx;
  taken-sent = λ tx m s h. pushes tx m s;
  taken-dropped = never_dropped;
  taken-other = passes_by;
  send = λ tx m s. (push tx m s, true);
  send-sent = λ tx m s h. pushes tx m s;
  send-dropped = never_dropped;
  send-other = passes_by;
}

abbrev ask : ActionRequest
ask = record {
  action_id = bytes "k-0";
  action = [];
  params_json = [];
  timeout_ms = 0;
  streaming = false;
  caller_plugin_id = [];
}

pub decode : List ℕ → Option Envelope
decode [] = none
decode (b ∷ bs) = some (envelope_of (action_request ask))

unfoldable pub from_str_name : Text → Option ℕ
from_str_name name = if name == bytes "PERMISSION_IPC_SEND" then some 1 else none

abbrev pub wire : Wire
wire = record {
  decode = decode;
  encode = λ env. some [];
  crc32_hash = λ bs. 0;
  target_as_str = λ f. none;
  from_str_name = from_str_name;
  as_str_name = λ p. [];
  permission_unknown = 0;
  permission_ipc_send = 1;
  permission_audio_stream = 2;
  permission_event_publish = 3;
  permission_kernel_admin = 4;
  flag_raw_binary = 1;
  flag_mac_present = 4;
  flag_fragmented = 2;
}

abbrev pub frame : Frame
frame = record {
  magic = 0;
  flags = 4;
  length = 1;
  target = [];
  crc32 = 0;
  payload = 7 ∷ [];
  mac = some [];
}

abbrev pub message : IncomingMessage
message = record { conn_id = 2; frame = frame; write_tx = 20 }

abbrev pub now : Now
now = record { instant = 5; unix_ms = 5 }

abbrev pub kernel : Kernel Stores
kernel = record {
  registry = both_registry;
  bus = record { subscriptions = []; by_plugin = [] };
  chans = λ tx. [];
  msg_seq = 0;
  action_seq = 0;
  event_seq = 0;
  has_store = true;
  store_calls = [];
}

apart : message.write_tx ≢ 10
apart e = absurd (omega arith)

alice_valid : validate_plugin_id alice ≡ ok tt
unfolding validate_plugin_id validate_identifier is_empty text_beq all is_id_byte
alice_valid = refl

target_bytes_injective_example : alice ≡ alice
target_bytes_injective_example = target_bytes_injective alice alice alice_valid alice_valid refl

refusal-none_iff_example :
    (refusal wire both_registry bob alice frame ≡ none)
    ↔ ((sender : PluginEntry) × IsAuthorised wire both_registry bob alice frame sender)
refusal-none_iff_example = refusal-none_iff wire both_registry bob alice frame

forward_isolation_example :
    let k' = (forward stores wire now message alice none kernel).0 in
    (stores.taken k'.chans 10 ≡ stores.taken kernel.chans 10)
    ⊎ (((e sender : PluginEntry) × (get_by_conn_id message.conn_id kernel.registry ≡ some e)
          × IsAuthorised wire kernel.registry e.plugin_id alice message.frame sender)
        × Receives alice kernel.registry none 10
        × Delivered stores wire now message 10 kernel k')
forward_isolation_example = forward_isolation stores wire now message alice none 10 kernel apart

broadcast_reach_example :
    Grows
      (Reaches wire kernel.registry message.conn_id 10)
      (out_frame (retagged wire message.frame))
      (stores.taken kernel.chans 10)
      (stores.taken (broadcast stores wire now message kernel).0.chans 10)
broadcast_reach_example = broadcast_reach stores wire now message 10 kernel apart
