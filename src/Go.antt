-- ===== src/Go.antt =====
-- The parts of Go's standard library that the agent calls: strings, slices, slices.SortFunc and
-- context.
pub mod Strings
pub mod Slices
pub mod Maps
pub mod Context
pub mod Sort
pub mod Flags
