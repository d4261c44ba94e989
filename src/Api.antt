-- ===== src/Api.antt =====
-- src/agc_api.c: the table of commands, their execution and the streams they write to.
pub mod Stream
pub mod Commands
