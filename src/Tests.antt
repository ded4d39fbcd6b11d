-- ===== src/Tests.antt =====
-- Runs of the models on concrete inputs, of coder-dlp-compositor/src and app/src.
mod Watermark
mod Sandbox
mod Input
pub mod Compositor
mod Desktop
mod Sessions
mod Transfers
mod Polls
mod Application
mod Connections
mod Windows
