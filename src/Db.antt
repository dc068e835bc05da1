-- ===== src/Db.antt =====
-- The database of queries and clients, src/db.rs: the SQL that its lists are read by, and its
-- tables with the statements that change them.
pub mod Param
pub mod Where
pub mod Tables
pub mod Listing
