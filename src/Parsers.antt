-- ===== src/Parsers.antt =====
-- src/parsers: the byte automata for the three messages of a SOCKS5 client.
pub mod Conn
pub mod Auth
pub mod Req
