-- ===== src/Wizard.antt =====
-- backend/wizard: the saving of an edited document.
pub mod Alignment
pub mod Unions
pub mod Vectors
pub mod Recovery
