-- ===== src/Compute.antt =====
-- core/compute: the pure measurement math.
pub mod Histogram
pub mod Cdf
pub mod Stats
pub mod Verdict
