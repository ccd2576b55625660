-- ===== src/Transport/Format.antt =====
-- What the transport promises of one kind of value, as a format: its bytes and which values it
-- holds. `Reads r f` says that the reader `r` accepts exactly the bytes of `f`.
pub mod Basic
pub mod Words
pub mod Containers
pub mod Collections
pub mod Choice
