-- ===== src/Remediation.antt =====
-- The remediation of failed runs and the reading of successful ones: libs/remediation.
pub mod Recommendations
pub mod Frontier
pub mod Strategies
pub mod Signals
pub mod Attempts
pub mod Recommend
pub mod Reading
pub mod Classify
mod Tests
