-- ===== src/Settings.antt =====
-- The parts of the settings page (app/dashboard/app/config/page.tsx) outside its dialogs: the pool,
-- the connections with their reuse, and the tabs.
pub mod Pool
pub mod Reuse
