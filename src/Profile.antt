-- ===== src/Profile.antt =====
-- go/profile: the `.pharos` bundle (pharos.go) and the on-device store of such files (store.go).
pub mod Types
pub mod HostPort
pub mod Select
pub mod Endpoint
pub mod Tunnel
pub mod Parse
pub mod Store
pub mod Tests
pub mod FileTests
