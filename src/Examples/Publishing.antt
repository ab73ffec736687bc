-- ===== src/Examples/Publishing.antt =====
-- A registration with a token, and events over channels that are never full.
use veyron.Ipc.Router.Events.Publishing.{may_publish, handle_event_publish_exact}
use veyron.Ipc.Router.Events.{handle_event_publish, namespaced, published_event}
use veyron.Ipc.Router.Actions.{sender_of}
use veyron.Prelude.{
  [], ◌∷◌, none, some, refl, text_eq, nat_eq, arith, if◌then◌else◌, ◌≡◌, ◌≢◌, bytes, ◌==◌, ◌++◌,
  text_beq, retain, Text, ◌&&◌,
}
use veyron.Utils.Errors.{ok, err, auth}
use veyron.Auth.Jwt.{PluginClaims, Decoder}
use veyron.Registry.Types.{unspecified}
use veyron.Events.Delivery.Reach.{frames_for, is_on}
use veyron.Events.Bus.{targets}
use veyron.Ipc.Wire.{Event, Envelope, PluginRegister, envelope_of, ping}
use veyron.Ipc.Kernel.{Kernel, persist_async}
use veyron.Ipc.Router.Registration.{Settings, handle_register}
use veyron.Ipc.Router.Registration.Checks.{Enters}
use veyron.Ipc.Router.Registration.Granted.{handle_register_granted}
use veyron.Examples.Ipc.{wire, roomy, now, kernel, message, Stores}
use veyron.Examples.Data.{alice}

abbrev claims : PluginClaims
claims = record {
  sub = bytes "carol";
  permissions = bytes "ipc_send" ∷ [];
  ipc_targets = alice ∷ [];
  exp = 9;
  iat = 1;
  aud = none;
  jti = none;
}

abbrev decoder : Decoder
decoder token = if token == bytes "t" then ok claims else err (auth (bytes "bad token"))

settings : Settings
settings = record {
  jwt = some decoder;
  mac_secret = none;
  active_secret = none;
  config_permissions = none;
  wire_version = bytes "2.0.0";
  derive_session_key = λ ikm nonce id. ikm;
  device_os = λ n. unspecified;
  lifecycle_json = λ l. l.plugin_id;
}

abbrev registration : PluginRegister
registration = record {
  plugin_id = bytes "carol";
  manifest = none;
  jwt_token = bytes "t";
  protocol_version = bytes "2.1";
  device_id = [];
  user_id = [];
  os = 1;
  arch = [];
  os_version = [];
  capabilities = [];
}

decoded : decoder (bytes "t") ≡ ok claims
unfolding text_beq
decoded = refl

abbrev hello : Envelope
hello = envelope_of (ping 0)

handle_register_granted_example :
    Enters settings message registration
      (bytes "carol")
      kernel.registry
      (handle_register roomy wire now settings message hello registration [] kernel).0.registry
handle_register_granted_example =
    handle_register_granted roomy wire now settings message hello registration [] (bytes "carol")
      kernel

abbrev joined_event : Event
joined_event = record { event_id = []; event_type = bytes "x"; payload_json = []; retry_count = 0 }

abbrev listening : Kernel Stores
listening = record kernel {
  bus = record {
    subscriptions = (bytes "x", alice ∷ []) ∷ [];
    by_plugin = (alice, bytes "x" ∷ []) ∷ [];
  };
}

elsewhere : message.write_tx ≢ 10
elsewhere e = absurd (omega arith)

handle_event_publish_exact_example :
    let sender_id : Text = sender_of message listening.registry in
    let k' : Kernel Stores =
      (handle_event_publish roomy wire now message hello (bytes "x") [] listening).0 in
    (k'.chans 10 ≡ (
      if may_publish wire listening.registry sender_id
      then listening.chans 10
        ++ frames_for wire [] (
            retain
              (is_on listening.registry 10)
              (targets (namespaced sender_id (bytes "x")) listening.bus))
      else listening.chans 10))
    × (k'.store_calls ≡ (
        if may_publish wire listening.registry sender_id && listening.has_store
        then listening.store_calls
          ++ persist_async (published_event sender_id (bytes "x") [] now listening.event_seq) ∷ []
        else listening.store_calls))
handle_event_publish_exact_example =
    handle_event_publish_exact roomy wire now message hello (bytes "x") [] [] 10 listening
      (λ m s. refl) elsewhere refl
