-- ===== src/Adv.antt =====
-- cppboot/adv: what programs are put together with.
pub mod Env
pub mod PluginManager
pub mod Args
pub mod Bus
pub mod PluginLoader
