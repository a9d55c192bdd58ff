-- ===== src/ActiveProxy.antt =====
-- src/addons/activeproxy: the client side of the proxy's relay protocol.
pub mod PacketType
pub mod Relay
pub mod Connection
