-- ===== src/Materials.antt =====
-- services/learning-materials-service/src/routes/internal.ts: learning paths and the catalogue.
pub mod Paths
pub mod PathLaws
pub mod Catalog
pub mod CatalogLaws
pub mod Examples
pub mod Mappers
pub mod Titles
pub mod SectionLaws
pub mod Review
pub mod ReviewLaws
pub mod FlashcardLaws
pub mod ReviewExamples
