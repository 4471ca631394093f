-- ===== src/Vp.antt =====
-- go/vp: the tunnel engines.
pub mod Engine
pub mod Device
pub mod Xray
pub mod Stats
pub mod Tunnel
pub mod XrayTunnel
pub mod Bridge
