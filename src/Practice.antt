-- ===== src/Practice.antt =====
-- apps/web/app/main/practice-center, but for the speaking session: exercises as questions, the panel
-- that answers them, the modules of the active path and the speaking history.
pub mod Decimal
pub mod Catalog
pub mod Panel
pub mod PanelLaws
pub mod ActivePath
pub mod History
pub mod HistoryLaws
pub mod PathLaws
pub mod CatalogLaws
pub mod Examples
