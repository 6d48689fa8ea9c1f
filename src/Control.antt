-- ===== src/Control.antt =====
-- services/control_api/main.py: the handlers that change the database.
pub mod Common
pub mod Groups
pub mod Members
pub mod Limits
pub mod Keys
pub mod Tokens
pub mod Organisations
pub mod Applications
pub mod Roles
pub mod Changes
pub mod Contracts
pub mod Requests
