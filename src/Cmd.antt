-- ===== src/Cmd.antt =====
-- cmd/init-agent: the options and what main does with them.
pub mod Options
pub mod Main
