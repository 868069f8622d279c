-- ===== src/Mpsc/Keeps.antt =====
-- Every turn of a producer or of the consumer keeps the invariant.
pub mod Allocates
pub mod Exchanges
pub mod Links
pub mod Takes
pub mod Turns
