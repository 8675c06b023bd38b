-- ===== src/Cli.antt =====
-- islandd's command line client (cli.ts).
pub mod Flags
pub mod Shell
pub mod Friend
pub mod Keys
pub mod Kept
pub mod Mint
