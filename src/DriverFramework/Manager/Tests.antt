-- ===== src/DriverFramework/Manager/Tests.antt =====
-- src/driver_framework/manager.rs: runs of the device manager, and its theorems at a small
-- registry.
use neutrix.Base.{ℕ, ◌≡◌, refl, none, some, [], ◌∷◌, arith, if◌then◌else◌, ◌==◌}
use neutrix.DriverFramework.Device.{Resource, memory_mapped, io, DeviceInfo, Driver}
use neutrix.DriverFramework.Manager.{
  DeviceManager, RegistryEntry, new, register_device, merge_or_register, merge_entries,
  find_by_vid_pid, find_entry, attach_driver, detach_driver, probed, started, stopped, released, ok,
  err, already_has_driver,
}
use neutrix.DriverFramework.Manager.Ids.{IsValid, register_device_lem}
use neutrix.DriverFramework.Manager.Attach.{AttachCase, attach_driver_cases, detach-attach_driver}
use neutrix.DriverFramework.Manager.Merge.{merge_or_register_lem, first}

abbrev mmio : Resource
mmio = record { kind = memory_mapped; addr = 4096; len = 64 }

abbrev ports : Resource
ports = record { kind = io; addr = 96; len = 8 }

abbrev nic : DeviceInfo
nic = record {
  vendor_id = 32902;
  device_id = 4110;
  class = 2;
  subclass = 0;
  prog_if = 0;
  resources = mmio ∷ [];
  capabilities = [];
  description = b'n' ∷ b'i' ∷ b'c' ∷ [];
}

abbrev nic_ports : DeviceInfo
nic_ports = record nic { resources = ports ∷ mmio ∷ [] }

abbrev eager : Driver
eager = record { probe = λ _. none; start = λ _. none }

abbrev entry : RegistryEntry
entry = record { device = record { id = 1; info = nic }; driver = none }

abbrev one_device : DeviceManager
one_device = record { devices = entry ∷ []; next_device_id = 2; calls = [] }

register_run : register_device new nic ≡ (one_device, 1)
unfolding register_device
register_run = refl

merge_run : (merge_or_register one_device nic_ports).1 ≡ some 1
unfolding merge_or_register merge_entries
merge_run = refl

register_device_lem_example :
    let (m', id) = register_device one_device nic_ports in
    IsValid m'
    × (find_entry id one_device.devices ≡ none)
    × ((j : ℕ)
        → find_entry j m'.devices ≡ (
            if id == j
            then some (record { device = record { id = id; info = nic_ports }; driver = none })
            else find_entry j one_device.devices))
register_device_lem_example =
    register_device_lem one_device nic_ports (omega arith, omega arith) (omega arith)

attach_driver_cases_example : AttachCase one_device 1 eager (attach_driver one_device 1 eager)
attach_driver_cases_example = attach_driver_cases one_device 1 eager

detach-attach_driver_example :
    let m' = (attach_driver one_device 1 eager).0 in
    (attach_driver m' 1 eager ≡ (m', err (already_has_driver 1)))
    × (detach_driver m' 1
        ≡ (record one_device { calls = released 1 ∷ stopped 1 ∷ started 1 ∷ probed 1 ∷ [] }, ok))
unfolding find_entry
detach-attach_driver_example =
    detach-attach_driver one_device 1 eager eager entry (refl, refl, refl, refl)

merge_or_register_lem_example :
    let (m', r) = merge_or_register one_device nic_ports in
    (r ≡ first (find_by_vid_pid one_device 32902 4110))
    × ((vendor device : ℕ)
        → find_by_vid_pid m' vendor device ≡ find_by_vid_pid one_device vendor device)
    × (r ≡ none → m' ≡ one_device)
merge_or_register_lem_example = merge_or_register_lem one_device nic_ports
