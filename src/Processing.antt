-- ===== src/Processing.antt =====
-- backend/processing: the splitting of documents.
pub mod Splitter
pub mod Cutting
pub mod Chunker
