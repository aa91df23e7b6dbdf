-- ===== src/Session.antt =====
-- The MQTT session of intouch2-mqtt/src/mqtt_session.rs: its packet ids.
pub mod Packet
pub mod Pid
pub mod Publish
pub mod Subscribe
pub mod Recv
pub mod Connect
pub mod Topic
mod Examples
