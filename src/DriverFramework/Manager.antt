-- ===== src/DriverFramework/Manager.antt =====
-- src/driver_framework/manager.rs: the device manager. Its state is the registry, the counter of
-- device ids, and the calls that it has made on drivers, newest first. The calls run under the
-- registry's lock, so each operation is one step.
pub mod Ids
pub mod Attach
pub mod Merge
mod Tests
use mathlib.Core.Logic.{ite}
use neutrix.Base.{
  ℕ, zero, suc, ◌+◌, ◌%◌, ◌^◌, Bool, true, false, not, ◌&&◌, ◌||◌, Option, none, some, List, [],
  ◌∷◌, ◌++◌, if◌then◌else◌, ◌==◌, u64,
}
use neutrix.DriverFramework.Device.{
  Resource, Capability, DeviceInfo, Device, Driver, ResourceKind-discrete, Capability-discrete,
}

pub record RegistryEntry : Type 0 where
  pub device : Device
  pub driver : Option Driver

-- A call on a driver, with the device's id.
pub data Call : Type 0 where
  probed started stopped released : ℕ → Call

pub record DeviceManager : Type 0 where
  pub devices : List RegistryEntry
  pub next_device_id : ℕ
  pub calls : List Call

-- The texts that the `Err` results carry.
pub data Error : Type 0 where
  already_has_driver no_driver no_device : ℕ → Error
  probe_failed start_failed : List ℕ → Error

pub data Result : Type 0 where
  ok : Result
  err : Error → Result

abbrev pub new : DeviceManager
new = record { devices = []; next_device_id = 1; calls = [] }

unfoldable pub register_device : DeviceManager → DeviceInfo → DeviceManager × ℕ
register_device m info =
    let entry : RegistryEntry = record {
      device = record { id = m.next_device_id; info = info };
      driver = none;
    } in
    (
      record m { devices = m.devices ++ (entry ∷ []); next_device_id = u64 (m.next_device_id + 1) },
      m.next_device_id,
    )

-- `existing.resources.iter().any(|er| er.kind == r.kind && er.addr == r.addr)`
unfoldable pub has_resource : Resource → List Resource → Bool
has_resource r [] = false
has_resource r (e ∷ es) =
    ite (ResourceKind-discrete e.kind r.kind) (e.addr == r.addr) false || has_resource r es

unfoldable pub add_resources : List Resource → List Resource → List Resource
add_resources existing [] = existing
add_resources existing (r ∷ rs) =
    add_resources (if not (has_resource r existing) then existing ++ (r ∷ []) else existing) rs

-- Two capabilities have one debug text exactly when all their fields agree.
unfoldable pub has_capability : Capability → List Capability → Bool
has_capability c [] = false
has_capability c (e ∷ es) = ite (Capability-discrete e c) true false || has_capability c es

unfoldable pub add_capabilities : List Capability → List Capability → List Capability
add_capabilities existing [] = existing
add_capabilities existing (c ∷ cs) =
    add_capabilities (if not (has_capability c existing) then existing ++ (c ∷ []) else existing) cs

-- `text.starts_with(part)` and `text.contains(part)`
unfoldable pub starts_with : List ℕ → List ℕ → Bool
starts_with text [] = true
starts_with [] (p ∷ ps) = false
starts_with (t ∷ ts) (p ∷ ps) = t == p && starts_with ts ps

unfoldable pub contains : List ℕ → List ℕ → Bool
contains [] part = starts_with [] part
contains (t ∷ ts) part = starts_with (t ∷ ts) part || contains ts part

-- What `merge_or_register` does to the description it found.
unfoldable pub merge_info : DeviceInfo → DeviceInfo → DeviceInfo
merge_info existing info = record existing {
  resources = add_resources existing.resources info.resources;
  capabilities = add_capabilities existing.capabilities info.capabilities;
  description =
      if not (contains existing.description info.description)
      then existing.description ++ (b';' ∷ b' ' ∷ info.description)
      else existing.description;
}

abbrev pub same_ids : DeviceInfo → DeviceInfo → Bool
same_ids i info = i.vendor_id == info.vendor_id && i.device_id == info.device_id

-- The first entry with the vendor and device ids is merged into; its device's id is the result.
unfoldable pub merge_entries : List RegistryEntry → DeviceInfo → List RegistryEntry × Option ℕ
merge_entries [] info = ([], none)
merge_entries (e ∷ es) info =
    let merged : RegistryEntry = record e {
      device = record { id = e.device.id; info = merge_info e.device.info info };
    } in
    let rest = merge_entries es info in
    if same_ids e.device.info info then (merged ∷ es, some e.device.id) else (e ∷ rest.0, rest.1)

unfoldable pub merge_or_register : DeviceManager → DeviceInfo → DeviceManager × Option ℕ
merge_or_register m info =
    let (es, r) = merge_entries m.devices info in (record m { devices = es }, r)

-- `devices.iter_mut().find(|e| e.device.id == device_id)`
unfoldable pub find_entry : ℕ → List RegistryEntry → Option RegistryEntry
find_entry id [] = none
find_entry id (e ∷ es) = if e.device.id == id then some e else find_entry id es

-- An assignment to the `driver` field of the entry that was found.
unfoldable pub set_driver : ℕ → Option Driver → List RegistryEntry → List RegistryEntry
set_driver id d [] = []
set_driver id d (e ∷ es) =
    if e.device.id == id then record e { driver = d } ∷ es else e ∷ set_driver id d es

-- `attach_driver` at the entry that was found.
unfoldable pub attach_entry : DeviceManager → ℕ → Driver → RegistryEntry → DeviceManager × Result
attach_entry m id d e = elim e.driver [
  | some _ ↦ (m, err (already_has_driver id))
  | none ↦ elim (d.probe e.device) [
    | some text ↦ (record m { calls = probed id ∷ m.calls }, err (probe_failed text))
    | none ↦ elim (d.start e.device) [
      | some text ↦ (record m { calls = started id ∷ probed id ∷ m.calls }, err (start_failed text))
      | none ↦ (
        record m {
          devices = set_driver id (some d) m.devices;
          calls = started id ∷ probed id ∷ m.calls;
        },
        ok,
      )
    ]
  ]
]

unfoldable pub attach_driver : DeviceManager → ℕ → Driver → DeviceManager × Result
unfolding attach_entry
attach_driver m id d = elim (find_entry id m.devices) [
  | none ↦ (m, err (no_device id))
  | some e ↦ attach_entry m id d e
]

unfoldable pub detach_entry : DeviceManager → ℕ → RegistryEntry → DeviceManager × Result
detach_entry m id e = elim e.driver [
  | none ↦ (m, err (no_driver id))
  | some _ ↦ (
    record m { devices = set_driver id none m.devices; calls = released id ∷ stopped id ∷ m.calls },
    ok,
  )
]

unfoldable pub detach_driver : DeviceManager → ℕ → DeviceManager × Result
unfolding detach_entry
detach_driver m id = elim (find_entry id m.devices) [
  | none ↦ (m, err (no_device id))
  | some e ↦ detach_entry m id e
]

unfoldable pub ids_of : ℕ → ℕ → List RegistryEntry → List ℕ
ids_of vendor device [] = []
ids_of vendor device (e ∷ es) =
    if e.device.info.vendor_id == vendor && e.device.info.device_id == device
    then e.device.id ∷ ids_of vendor device es
    else ids_of vendor device es

unfoldable pub find_by_vid_pid : DeviceManager → ℕ → ℕ → List ℕ
unfolding ids_of
find_by_vid_pid m vendor device = ids_of vendor device m.devices
