-- ===== src/Enroll.antt =====
-- go/enroll: the join link (link.go) and the claim that redeems it (claim.go).
pub mod Link
pub mod Fingerprint
pub mod Pin
pub mod Claim
pub mod Tests
