-- ===== src/Samples.antt =====
-- Concrete stand-ins for the code that the program only calls: lawful ciphers and codecs with which
-- the tests run the model.
pub mod Wire
pub mod Ciphers
pub mod Codecs
pub mod Sealed
pub mod Devices
pub mod Joins
pub mod Profiles
pub mod Services
pub mod Hosts
pub mod Worlds
