-- ===== src/Gui.antt =====
-- The macOS client, which overrides the handlers of the console client.
pub mod Defs
pub mod Actions
pub mod Same
pub mod Offers
