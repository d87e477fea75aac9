-- ===== src/Pages.antt =====
-- The pages of the console, web/admin/src/pages and the components that they use.
pub mod Uptime
pub mod Login
pub mod Services
pub mod KeyValues
pub mod ApiKeys
pub mod Cards
pub mod Health
pub mod Dashboard
pub mod Navbar
pub mod Updates
