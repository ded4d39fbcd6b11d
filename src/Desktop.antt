-- ===== src/Desktop.antt =====
-- The Qt application under app/src, without its windows: what its components keep and do. Qt, the
-- system, the network and the compositor's processes enter as arguments.
pub mod Launcher
pub mod Secrets
pub mod Deployments
pub mod Settings
pub mod Transfers
pub mod Sync
pub mod Rows
pub mod Polling
pub mod Updates
pub mod Application
pub mod WebSocket
pub mod LoginFlow
