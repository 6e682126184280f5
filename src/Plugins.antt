-- ===== src/Plugins.antt =====
-- cppboot/plugins: what the sample plugins do.
pub mod Debugger
