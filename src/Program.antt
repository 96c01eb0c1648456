-- ===== src/Program.antt =====
-- The command line and the main loop, src/cli.c and src/main.c.
pub mod Cli
pub mod Main
pub mod Print
pub mod PrintWidths
pub mod PrintedLines
pub mod PrintLaws
pub mod MainLaws
pub mod Script
pub mod ScriptLaws
pub mod Sessions
pub mod MainSession
pub mod Restart
pub mod PrintExamples
pub mod SessionExamples
pub mod Examples
