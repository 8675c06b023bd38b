-- ===== src/Sysinfo.antt =====
-- core/sysinfo.ts: the readouts of the host that Home and the security reports show. A command's
-- output is `none` where running it failed, and `parse_text` is JSON.parse, `none` where it throws.
pub mod Journal
pub mod Lines
pub mod Fail2ban
pub mod Links
pub mod Replay
pub mod Ladder
