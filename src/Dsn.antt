-- ===== src/Dsn.antt =====
-- dsn.go: the URL-like coding of connection strings, and the parsing of a data source name.
pub mod Byte
pub mod Escape
pub mod Text
pub mod Split
pub mod Values
pub mod Query
