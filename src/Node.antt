-- ===== src/Node.antt =====
-- main.ts: a running node, its routes and what they keep on disk.
pub mod State
pub mod Json
pub mod Bodies
pub mod Friending
pub mod Status
pub mod Admin
pub mod Mail
pub mod Files
pub mod Routes
pub mod Spoke
pub mod Within
pub mod BookHandled
pub mod AdminHandled
pub mod Handled
pub mod Run
pub mod Histories
pub mod Strangers
pub mod FirstRun
pub mod Nonces
