-- ===== src/Lib.antt =====
-- A verification library of the Vynkor kernel: a message router between plugins that run as separate
-- processes, the registry of those plugins, and the supervisor that starts and restarts them.
--
-- A plugin connects, registers with a manifest and sends frames. The router checks each frame against
-- the registry and the permissions, and puts it on the write channel of its target, of all listeners,
-- or of a remote host. Requests that the kernel routes to a provider stand in the registry as actions
-- in flight until their reply. The supervisor keeps the plugin processes alive and honours stops.
--
-- Files and the code that they model:
-- - Prelude: shared types, tests, byte strings, association lists for the concurrent maps.
-- - Utils/Errors, Utils/Validate: src/utils/errors.rs, src/utils/validate.rs and the plugin id gate of
--   src/plugins/registry.rs. Validate/Exact: which ids pass.
-- - Registry/Types, Registry/State: the data and the lookups of src/plugins/registry.rs.
-- - Registry/ActionIndex: `index_action`, `unindex_action`. ActionIndex/Slots: one action at a time;
--   ActionIndex/Providers: the index as lists of providers.
-- - Registry/Register: `register`, `register_with_device`, `register_device`, `unregister`.
--   Register/Index, Register/Consistent: the maps agree; Register/Lookup: what a lookup finds.
-- - Registry/Pending: the actions in flight. Pending/Replies: who may answer, and how often;
--   Pending/Sweeps: what the two sweeps evict.
-- - Auth/Permissions: src/auth/permissions.rs. Permissions/Names, Permissions/Checks: its properties.
-- - Auth/Jwt: the validation of a token, of src/auth/jwt.rs. Auth/Devices: src/auth/device_store.rs.
--   Devices/Lifecycle: an issued credential.
-- - Events/Bus: subscriptions of src/events/bus.rs. Bus/Subscriptions: its properties.
-- - Events/Delivery: `publish` and `deliver` of the same file. Delivery/Reach: who gets what.
-- - Supervisor/State: src/plugins/supervisor/mod.rs and the guard of `spawn_internal` in
--   src/plugins/supervisor/spawn.rs. Supervisor/Backoff: the restart delay.
-- - Supervisor/Monitor: `monitor_loop` of src/plugins/supervisor/watchdog.rs. Monitor/Exits: its
--   decision; Monitor/System: the loop with the calls that run during a delay; System/Stops: stops;
--   System/Races: where a delay outlives them.
-- - Plugins/Loader: `config_from_def` and `topo_sort` of src/plugins/loader.rs. Loader/Degrees,
--   Loader/Order, Loader/Ends: the sort ends, and with what; Loader/Cycles: an id that stands twice.
-- - Plugins/Start: `validate_plugin_def` and `load_all` of the same file. Start/Fallback: its order
--   where there is a cycle.
-- - Ipc/Wire, Ipc/Channels: the wire structures and two interfaces, see below. Ipc/Framing:
--   src/ipc/framing.rs. Ipc/Kernel: src/ipc/protocol/helpers.rs.
-- - Ipc/Reassembly: the buffers of src/ipc/connection.rs. Reassembly/Ordered: their order.
-- - Ipc/Connection: the read loop of the same file. Connection/Buffers, Connection/Bounds,
--   Connection/Turns, Connection/Loop: what it holds; Connection/Collected, Connection/RoundTrip: a
--   fragmented message; Connection/Armed: the check of tags; Connection/Writes: the write loop.
-- - Ipc/Router/Forward, Ipc/Router/Broadcast: the functions of these names of
--   src/ipc/protocol/router.rs, and `relay_to_host` of src/bridge/mod.rs.
-- - Ipc/Router/Actions, Ipc/Router/Streams: the arms of `handle_kernel_message` of the same file for
--   actions, chunks and the close of a session, with `abort_stream` and `notify_forced_termination` of
--   src/ipc/protocol/helpers.rs.
-- - Ipc/Router/Registration, Ipc/Router/Events: the arms for registrations, pings, subscriptions and
--   events. Registration/Checks, Registration/Granted: who gets in; Events/Publishing: who hears it.
-- - Ipc/Router/Budget: the admission of a message and the error budget of `run_with_context`, with
--   `is_throttle_exempt`.
-- - Examples: concrete runs.
--
-- Conventions. A string is the list of its bytes. A concurrent map is an association list, and a method
-- is one step from state to state. A clock reading is an argument, in milliseconds. Machine integers
-- wrap (`% 2 ^ w`) or saturate where the source says so. Every loop runs over a list but one: the sort of the
-- plugins takes a number of rounds, and as many as there are ids are enough where no id stands twice.
--
-- Parameters. `Wire` holds what the kernel calls of the wire library, of the protobuf codec and of the
-- checksum library, as functions and constants of which nothing is supposed; `FrameCodec` what a
-- connection calls of the wire library, of which a theorem says what it supposes. `Channels` holds the
-- write channels of the asynchronous runtime: a non-blocking send puts its item at the end of its own
-- channel, or changes nothing. Whether a process starts, or exits in time, is an argument.
--
-- Not modelled: the rest of the router's receive loop and its arm for kernel commands, and the
-- database of the event store; and what is I/O or glue, the HTTP API, the command line, the sandbox, the
-- configuration and logging. Metrics and log lines are left out.
pub mod Prelude
pub mod Utils
pub mod Registry
pub mod Supervisor
pub mod Plugins
pub mod Ipc
pub mod Auth
pub mod Events
pub mod Examples
