-- ===== src/Control.antt =====
-- src/controlProtocol: the monitoring protocol of the proxy.
pub mod Strtok
pub mod AuthParser
pub mod CommandParser
pub mod Commands
pub mod Conn
pub mod ConnList
pub mod Accept
pub mod Protocol
