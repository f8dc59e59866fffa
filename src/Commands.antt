-- ===== src/Commands.antt =====
-- Commands that users type: server/parse_cmd.c, the prepositions of server/db_verbs.c and the
-- matching of object names of server/match.c.
pub mod Words
pub mod Preps
pub mod Match
pub mod Parse
