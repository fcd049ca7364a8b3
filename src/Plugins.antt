-- ===== src/Plugins.antt =====
-- The registry of exchanges and the loader of the packages that fill it: registry.py,
-- gateway/registrar.py, plugins/protocol.py and plugins/loader.py. A class or a handler is a value of
-- a type `C`, whose test of identity is the interface `Key`.
pub mod Registry
pub mod Adapters
pub mod Loader
mod Tests
