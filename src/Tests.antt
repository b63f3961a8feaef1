-- ===== src/Tests.antt =====
-- The theorems at concrete inputs, and runs of the definitions.
mod Given
mod Config
mod Documents
mod Paragraphs
mod Sessions
mod Tasks
mod Splitting
mod Retrieving
mod Saving
mod Candidates
mod Ranking
mod Serving
mod Chunking
mod Aligning
mod Embedding
mod Recovering
