-- ===== src/Adv/Bus.antt =====
-- cppboot/adv/bus: messages between the clients of a bus and its server.
pub mod Msg
pub mod Context
pub mod Server
pub mod Invoker
pub mod Client
