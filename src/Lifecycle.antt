-- ===== src/Lifecycle.antt =====
-- internal/lifecycle: the rules that expire objects, and the worker that carries them out.
pub mod Rules
pub mod Runner
pub mod Run
pub mod Rows
pub mod Requests
