-- ===== src/Speaking.antt =====
-- The live speaking session of the web application.
pub mod Types
pub mod Words
pub mod Session
pub mod Speech
pub mod Turns
pub mod Recording
pub mod Connection
pub mod Transcript
pub mod Invariant
pub mod SpeechLaws
pub mod Run
pub mod TurnLaws
pub mod ConnectionLaws
pub mod Safety
pub mod Cycle
pub mod SpeechLinks
pub mod Outcomes
pub mod TurnCounts
pub mod Waiting
pub mod Discard
pub mod Shown
pub mod Fallback
pub mod Examples
