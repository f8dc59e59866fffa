-- ===== src/Tests.antt =====
-- The theorems of the other modules at concrete inputs.
mod Utf
mod Lists
mod Builtins
mod Rooms
mod Db
mod Verbs
mod Commands
mod Texts
mod Properties
mod Tasks
mod Numbers
