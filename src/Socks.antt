-- ===== src/Socks.antt =====
-- src/socks5/socks5.c and src/socks5/socks5.h: a connection of a SOCKS5 client through the proxy.
pub mod Conn
pub mod Bytes
pub mod Hello
pub mod Auth
pub mod Response
pub mod Request
pub mod Copy
pub mod Listening
pub mod Handshake
pub mod Login
pub mod Attempts
pub mod Connecting
pub mod Machine
