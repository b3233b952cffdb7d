-- ===== src/Docker.antt =====
-- src/docker.rs: the container, and the RCON client that stops its server.
pub mod Rcon
pub mod Stop
pub mod Client
