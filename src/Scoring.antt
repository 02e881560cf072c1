-- ===== src/Scoring.antt =====
-- services/learning-materials-service/src/scoring and its route.
pub mod Score
pub mod Grouping
pub mod ScoreLaws
pub mod Examples
