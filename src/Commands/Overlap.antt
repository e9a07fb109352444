-- ===== src/Commands/Overlap.antt =====
-- Many jobs on one machine whose processes overlap: the steps of all of them, in any order. A step
-- of a stage is a call of a component (of the AWS adapter, the metadata manager, the key factory, the
-- executor), which no other process interrupts.
pub mod Programs
pub mod Alone
pub mod Duty
pub mod System
pub mod Debts
pub mod Invariant
pub mod Rest
pub mod Schedule
pub mod Within
