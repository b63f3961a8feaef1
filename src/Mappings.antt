-- ===== src/Mappings.antt =====
-- backend/mappings: the process-local maps of documents, paragraphs and sessions.
pub mod Common
pub mod Inverse
pub mod DocumentMap
pub mod ParagraphMap
pub mod SessionMap
