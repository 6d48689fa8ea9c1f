-- ===== src/Accounting.antt =====
-- packages/domain/accounting.py: admission, transitions, settlement and spend contracts.
pub mod Clock
pub mod Budgets
pub mod Books
pub mod Admission
pub mod Settlement
pub mod Creation
pub mod Contracts
pub mod Closing
pub mod Calls
pub mod Frames
pub mod Release
