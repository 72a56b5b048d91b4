-- ===== src/GroupBy/Visit.antt =====
-- groupby.go: the visits of `queryGroupBy` keep the groups apart.
pub mod Seen
pub mod Alone
pub mod Values
pub mod Groups
pub mod Steps
pub mod Reference
