-- ===== src/PageMeta.antt =====
-- scripts/decision-meta.py: page metadata, breadcrumbs and backlinks for the manuals site.
pub mod Patterns
pub mod Paths
pub mod Titles
pub mod Graph
pub mod Related
pub mod Document
mod Tests
