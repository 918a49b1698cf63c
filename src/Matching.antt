-- ===== src/Matching.antt =====
-- app/services/keyword_matcher.py and the vocabulary of app/pipeline/enums.py that it uses.
pub mod Data
pub mod Fuzzy
pub mod EditDistance
pub mod Scripts
pub mod Selection
pub mod Ranking
pub mod Kept
pub mod Strongest
mod Tests
