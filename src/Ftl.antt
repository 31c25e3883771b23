-- ===== src/Ftl.antt =====
-- ftl/page_mapping.cc: the page-level flash translation layer.
pub mod State
pub mod Pool
pub mod Access
pub mod Collect
pub mod Write
pub mod Invariant
pub mod Slots
pub mod Drop
pub mod DropUnits
pub mod Prepare
pub mod Free
pub mod Last
pub mod Place
pub mod Loop
pub mod Stored
pub mod Clear
pub mod TrimUnits
pub mod Trim
pub mod Start
pub mod NewBlocks
pub mod Initial
pub mod Order
pub mod Format
pub mod Fill
pub mod Seen
pub mod Read
pub mod ReadBack
mod Tests
