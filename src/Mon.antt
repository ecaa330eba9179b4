-- ===== src/Mon.antt =====
-- packages/stagenethd/files/internal/mon: the parts of the monitoring that are modelled.
pub mod Ptp
pub mod Collector
pub mod Clockwatch
pub mod Netlink
