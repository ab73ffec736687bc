-- ===== src/Ipc.antt =====
-- The transport (src/ipc): wire structures, write channels, framing and the router.
pub mod Wire
pub mod Channels
pub mod Framing
pub mod Kernel
pub mod Reassembly
pub mod Connection
pub mod Router
