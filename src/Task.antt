-- ===== src/Task.antt =====
-- Task metadata (task/): the name of the metadata file and the manager that stores it.
pub mod Filename
pub mod Metadata
