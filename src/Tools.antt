-- ===== src/Tools.antt =====
-- What the pipeline stages share, tools/*.py.
pub mod Norm
pub mod Erasure
