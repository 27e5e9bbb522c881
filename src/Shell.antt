-- ===== src/Shell.antt =====
-- The frame around every page (app/dashboard/app/ui.tsx): its theme, the badges of its sidebar, the
-- top bar with its menus, and the small graphs that the pages share.
pub mod Counts
pub mod Sidebar
pub mod Theme
pub mod Topbar
pub mod Charts
