-- ===== src/Scrapers.antt =====
-- The scraper framework, scrapers/common/*.py.
pub mod Http
pub mod Sql
pub mod Runner
pub mod Memory
mod Tests
