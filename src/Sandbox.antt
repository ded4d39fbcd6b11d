-- ===== src/Sandbox.antt =====
-- coder-dlp-compositor/src/sandbox_launcher.c: the command line of bwrap, the D-Bus proxy, and the
-- launch of an application.
pub mod Config
pub mod Words
pub mod Build
pub mod Grammar
pub mod Options
pub mod Ops
pub mod Environment
pub mod Mounts
pub mod Effects
pub mod Proxy
pub mod Launch
pub mod Accounts
pub mod Covered
pub mod Teardown
pub mod Filter
pub mod Started
