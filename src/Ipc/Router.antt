-- ===== src/Ipc/Router.antt =====
-- src/ipc/protocol/router.rs: the routing of one message.
pub mod Forward
pub mod Broadcast
pub mod Actions
pub mod Streams
pub mod Budget
use veyron.Prelude.{
  [], ◌∷◌, none, some, inl, inr, true, false, refl, text_eq, nat_eq, arith, if◌then◌else◌, ==_iff,
  ==_refl, Option-cases, Bool-cases, ◌≡◌, zero, suc, List, Option, Bool, Text, ℕ,
}
pub mod Registration
pub mod Events
