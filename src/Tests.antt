-- ===== src/Tests.antt =====
-- Runs of the code on small inputs.
mod Base
mod Http
mod Server
mod Net
mod Adv
mod Env
mod Plugins
mod Loader
mod Connections
mod Bus
mod Fs
mod Tcp
mod Todo
mod Copy
