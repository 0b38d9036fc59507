-- ===== src/Tests.antt =====
-- Runs of the code on small inputs, and the theorems at inputs that meet their hypotheses.
mod Terminal
mod Boot
mod Printf
mod Paging
mod Kdebug
mod Console
mod Blocks
mod Strings
pub mod Strtol
pub mod Debuginfo
pub mod Backtrace
pub mod Typing
pub mod Session
pub mod Init
