-- ===== src/Pairing.antt =====
-- Pairing links, src-tauri/src/pairing.rs: `Codes` has the normal forms, `Payload` the data and what
-- the libraries of cryptography, base64 and JSON give, `Source` the text of a link, `Checks` the
-- validation, `Build` the link of this device, `Migration` the move of a trusted peer to a new
-- identity in db.rs.
pub mod Codes
pub mod Payload
pub mod Source
pub mod Checks
pub mod Build
pub mod Migration
pub mod Vetted
mod Tests
