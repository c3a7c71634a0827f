-- ===== src/Tests.antt =====
-- The theorems at concrete inputs, one module for each part of the program.
mod Shutdown
mod Auth
mod Routes
mod Security
mod SelfUpdate
mod Stats
mod Storage
mod Downloads
mod Changelog
mod Config
