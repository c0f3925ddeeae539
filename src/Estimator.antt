-- ===== src/Estimator.antt =====
-- src/stats/Estimator.hh and src/stats/TimeWindowEstimator.hh, over any `double`: a module per estimator, and what they have to do with the
-- samples.
pub mod Mean
pub mod WindowedMean
pub mod Ema
pub mod Share
pub mod TimeWindow
mod Tests
