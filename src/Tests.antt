-- ===== src/Tests.antt =====
-- Runs at concrete inputs, and the theorems at inputs that meet their hypotheses.
mod Tokens
mod Matching
mod Policies
mod Distill
mod Profiles
mod Scoring
mod Ngrams
mod Waiting
mod Headers
mod Components
mod Reading
