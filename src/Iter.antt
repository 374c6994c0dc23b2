-- ===== src/Iter.antt =====
-- The iteration helpers: src/iter/round.hpp and src/iter/enumerate.hpp.
pub mod Round
pub mod Enumerate
