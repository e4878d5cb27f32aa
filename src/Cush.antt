-- ===== src/Cush.antt =====
-- The shell, cs3214-cush/src.
pub mod Ast
pub mod Sig
pub mod State
pub mod Signals
pub mod Term
pub mod Jobs
pub mod Children
pub mod Atoi
pub mod Builtins
pub mod Spawn
pub mod Loop
mod Witnesses
