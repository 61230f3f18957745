-- ===== src/Auth.antt =====
-- packages/auth/src: the login throttle, the sessions, the cookie and the guard of the auth package.
-- A table is a list of rows; times are milliseconds since the epoch, which compare as their ISO texts
-- do; random identifiers and the hash of a token are parameters.
pub mod Throttle
pub mod Session
pub mod Cookie
pub mod Guard
