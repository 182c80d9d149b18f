-- ===== src/Tests.antt =====
-- The theorems applied to concrete inputs.
mod Users
mod Buffer
mod Parsers
mod Control
mod Protocol
mod Sniffer
mod Metrics
mod Socks
mod Relay
mod Handshake
mod Client
mod Turn
