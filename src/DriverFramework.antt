-- ===== src/DriverFramework.antt =====
-- src/driver_framework: devices, drivers and the manager that joins them.
pub mod Device
pub mod Manager
pub mod Drivers
