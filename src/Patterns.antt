-- ===== src/Patterns.antt =====
-- The library of patterns that cycles share: libs/patterns. This file has what its parts share.
pub mod Decay
pub mod Sweep
pub mod Upsert
pub mod Aggregate
pub mod Observations
pub mod Injection
mod Tests
use synthetos.Prelude.{ℕ, Bool, true, false}

pub data TrustTier : Type 0 where
  auto curated deprecated : TrustTier

abbrev pub is_tier : TrustTier → TrustTier → Bool
is_tier auto auto = true
is_tier curated curated = true
is_tier deprecated deprecated = true
is_tier _ _ = false
