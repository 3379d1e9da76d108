-- ===== src/Interpreter.antt =====
-- The speech interpreter, cmd/interpreter: two people, each in their own language.
pub mod Turns
pub mod Langs
pub mod Sessions
mod Examples
