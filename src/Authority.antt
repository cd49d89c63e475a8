-- ===== src/Authority.antt =====
-- authority.py, authority_consumption.py, enrollment.py, leases.py: who may approve and run what.
pub mod Devices
pub mod Matrix
pub mod Consumption
pub mod Facts
pub mod Lifecycle
pub mod Leases
pub mod Examples
