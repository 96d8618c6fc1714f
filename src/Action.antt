-- ===== src/Action.antt =====
-- The action language of squashfs-tools/action.c.
pub mod Lexer
pub mod Parser
pub mod Dump
pub mod Log
pub mod Eval
pub mod Table
pub mod Specs
mod Samples
mod Tests
