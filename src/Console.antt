-- ===== src/Console.antt =====
-- The console program: its screens, its keys and what it does with discovered services.
pub mod Defs
pub mod Screen
pub mod Lines
pub mod Keys
pub mod Services
pub mod Loop
pub mod Menu
pub mod Prompt
pub mod Stuck
pub mod Paths
pub mod Typing
pub mod Arrives
pub mod Peers
pub mod Keeps
pub mod Turns
pub mod Lost
pub mod Forget
pub mod Steps
pub mod Known
pub mod Firsts
