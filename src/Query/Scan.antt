-- ===== src/Query/Scan.antt =====
-- query.go: what planning, the sort of the intervals and the sweep are for, a scan over all the rows.
pub mod Pools
pub mod Rows
pub mod Expanded
pub mod Searched
pub mod Planned
pub mod Whole
pub mod Meaning
pub mod Expired
pub mod Built
pub mod Lookup
pub mod Told
pub mod Tested
pub mod Answer
