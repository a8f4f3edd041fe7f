-- ===== src/Gateway/RoundTrip.antt =====
-- Over lawful services: what an upload stores is what a download gives.
pub mod OnOk
pub mod Streamed
pub mod Stored
pub mod Read
pub mod Served
pub mod Pieces
pub mod Put
pub mod Multipart
mod Tests
