-- ===== src/Samples.antt =====
-- Tests: a concrete library, a small plan, and the guarantees at it.
pub mod Codec
pub mod Plans
pub mod Runs
pub mod Packs
pub mod Loading
pub mod Witnesses
