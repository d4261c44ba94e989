-- ===== src/Sql.antt =====
-- src/agc_sql.c: the execution of long SQL texts in chunks, the pool of database handles, and the repeated
-- execution of a text, also that of src/agc_db.c.
pub mod Chunks
pub mod Mutex
pub mod Pool
pub mod Waiting
pub mod Retry
