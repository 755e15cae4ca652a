-- ===== src/App.antt =====
-- The app layer, app/*.py.
pub mod World
pub mod Outreach
pub mod Auth
pub mod Interview
pub mod Store
mod Tests
