-- ===== src/Proxy.antt =====
-- src/proxy.rs: a client connection, from its handshake to the forwarding.
pub mod Wait
pub mod Forward
pub mod Connection
pub mod Probe
pub mod Login
