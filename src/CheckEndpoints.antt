-- ===== src/CheckEndpoints.antt =====
-- pkg/cmd/checkendpoints: the connectivity checks between pods. The status that a check keeps, the
-- queue through which updates reach it, and the recorder that limits the rate of events.
pub mod Status
pub mod Logs
pub mod Outage
pub mod Conditions
pub mod Checker
pub mod Updates
pub mod Backoff
