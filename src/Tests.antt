-- ===== src/Tests.antt =====
-- The theorems applied to concrete inputs, one module for each part of the dashboard.
mod Shell
mod Pages
mod Dialogs
mod Settings
mod Access
mod Consoles
mod Records
mod Presses
mod Screens
