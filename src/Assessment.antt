-- ===== src/Assessment.antt =====
-- The placement test of apps/web/app/onboarding/_components/AssessmentQuestion.tsx.
pub mod Prompt
pub mod Player
pub mod Test
pub mod Positions
pub mod Flow
pub mod Submission
pub mod Grading
pub mod Completion
pub mod PlayerLaws
pub mod Examples
