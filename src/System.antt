-- ===== src/System.antt =====
-- The program as one system: the gateway calls a metadata node and storage nodes, each as it is
-- modelled, as long as nobody else does.
pub mod StorageCalls
pub mod Listed
pub mod MetadataCalls
pub mod Calls
pub mod Answers
pub mod Holds
pub mod Lawful
pub mod RoundTrip
mod Tests
