-- ===== src/Tests.antt =====
-- The witnesses: each theorem that has conditions, at a concrete input where they hold.
mod Machine
mod Addresses
mod Stages
mod Stored
mod Parts
mod Start
mod Exit
mod Threads
mod Jobs
mod Overlap
mod Loggers
mod Service
mod Application
