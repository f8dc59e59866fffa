-- ===== src/Db.antt =====
-- The database of objects: server/db_objects.c, with the structures of server/db_private.h.
pub mod Object
pub mod Links
pub mod State
pub mod Objects
pub mod Verbs
pub mod Properties
