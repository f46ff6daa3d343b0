-- ===== src/DriverFramework/Drivers.antt =====
-- src/driver_framework/drivers: the drivers.
pub mod Ps2Kbd
pub mod Ps2Mouse
pub mod VbeVga
pub mod Vectors
pub mod Console
