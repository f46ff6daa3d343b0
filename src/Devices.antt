-- ===== src/Devices.antt =====
-- src/devices: what firmware and buses tell of devices.
pub mod Acpi
pub mod Pci
