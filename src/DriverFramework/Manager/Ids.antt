-- ===== src/DriverFramework/Manager/Ids.antt =====
-- src/driver_framework/manager.rs: device ids, and lookups by id.
use mathlib.Core.Option
use neutrix.Base.{
  ℕ, ◌+◌, ◌^◌, ◌≤◌, ◌<◌, ◌≡◌, refl, inl, inr, Option, none, some, List, [], ◌∷◌, ◌++◌,
  if◌then◌else◌, ◌==◌, Bool-cases, u64, arith,
}
use neutrix.DriverFramework.Device.{DeviceInfo, Driver}
use neutrix.DriverFramework.Manager.{
  RegistryEntry, DeviceManager, register_device, same_ids, merge_entries, merge_or_register,
  find_entry, set_driver,
}

-- Ids rise along the registry, from `lo` on, and stay below `hi`.
abbrev pub Rising : ℕ → ℕ → List RegistryEntry → Type 0
Rising lo hi [] = lo ≤ hi
Rising lo hi (e ∷ es) = (lo ≤ e.device.id) × Rising (e.device.id + 1) hi es

-- Every id is used once, and the counter lies above all of them.
abbrev pub IsValid : DeviceManager → Type 0
IsValid m = Rising 0 m.next_device_id m.devices

Rising-le : (lo hi : ℕ) (es : List RegistryEntry) → Rising lo hi es → lo ≤ hi
Rising-le lo hi [] h = h
Rising-le lo hi (e ∷ es) h = omega (arith, h.0, Rising-le (e.device.id + 1) hi es h.1)

Rising-append :
    (lo hi : ℕ) (es : List RegistryEntry) (e : RegistryEntry)
    → Rising lo hi es
    → e.device.id ≡ hi
    → Rising lo (hi + 1) (es ++ (e ∷ []))
Rising-append lo hi [] e h k = (omega arith, omega arith)
Rising-append lo hi (x ∷ es) e h k = (h.0, Rising-append (x.device.id + 1) hi es e h.1 k)

pub find_above :
    (lo hi id : ℕ) (es : List RegistryEntry) → Rising lo hi es → id < lo → find_entry id es ≡ none
unfolding find_entry
find_above lo hi id [] h k = refl
find_above lo hi id (e ∷ es) h k = ground (arith, h.0, find_above (e.device.id + 1) hi id es h.1)

pub find_fresh :
    (lo hi id : ℕ) (es : List RegistryEntry) → Rising lo hi es → hi ≤ id → find_entry id es ≡ none
unfolding find_entry
find_fresh lo hi id [] h k = refl
find_fresh lo hi id (e ∷ es) h k =
    let above = Rising-le (e.device.id + 1) hi es h.1 in
    ground (arith, find_fresh (e.device.id + 1) hi id es h.1)

find-append :
    (id : ℕ) (es : List RegistryEntry) (e : RegistryEntry)
    → find_entry e.device.id es ≡ none
    → find_entry id (es ++ (e ∷ [])) ≡ (if e.device.id == id then some e else find_entry id es)
unfolding find_entry
find-append id [] e h = refl
find-append id (x ∷ es) e h = ground (arith, find-append id es e)

-- While the counter is below 2^64 - 1 and ids are apart, `register_device` gives a new device an
-- id that no device had, keeps every other lookup, and keeps the ids apart.
pub register_device_lem :
    (m : DeviceManager) (info : DeviceInfo)
    → IsValid m
    → m.next_device_id + 1 < 2 ^ 64
    → let (m', id) = register_device m info in
      IsValid m'
      × (find_entry id m.devices ≡ none)
      × ((j : ℕ)
          → find_entry j m'.devices ≡ (
              if id == j
              then some (record { device = record { id = id; info = info }; driver = none })
              else find_entry j m.devices))
unfolding register_device
register_device_lem m info v room =
    let count : u64 (m.next_device_id + 1) ≡ m.next_device_id + 1 = omega arith in
    let fresh = find_fresh 0 m.next_device_id m.next_device_id m.devices v (omega arith) in
    let entry : RegistryEntry = record {
      device = record { id = m.next_device_id; info = info };
      driver = none;
    } in
    (
      rw count (Rising-append 0 m.next_device_id m.devices entry v refl),
      fresh,
      λ j. find-append j m.devices entry fresh,
    )

pub set_driver-Rising :
    (lo hi id : ℕ) (d : Option Driver) (es : List RegistryEntry)
    → Rising lo hi es
    → Rising lo hi (set_driver id d es)
unfolding set_driver
set_driver-Rising lo hi id d [] h = h
set_driver-Rising lo hi id d (e ∷ es) h = elim (Bool-cases (e.device.id == id)) [
  | inl hit ↦ rw hit h
  | inr miss ↦ rw miss (h.0, set_driver-Rising (e.device.id + 1) hi id d es h.1)
]

merge_entries-Rising :
    (lo hi : ℕ) (es : List RegistryEntry) (info : DeviceInfo)
    → Rising lo hi es
    → Rising lo hi (merge_entries es info).0
unfolding merge_entries
merge_entries-Rising lo hi [] info h = h
merge_entries-Rising lo hi (e ∷ es) info h = elim (Bool-cases (same_ids e.device.info info)) [
  | inl hit ↦ rw hit h
  | inr miss ↦ rw miss (h.0, merge_entries-Rising (e.device.id + 1) hi es info h.1)
]

pub merge_or_register-IsValid :
    (m : DeviceManager) (info : DeviceInfo) → IsValid m → IsValid (merge_or_register m info).0
unfolding merge_or_register
merge_or_register-IsValid m info v = merge_entries-Rising 0 m.next_device_id m.devices info v

abbrev pub with_driver : Option Driver → RegistryEntry → RegistryEntry
with_driver d e = record e { driver = d }

-- A change of one entry's driver is seen by that entry's lookup alone.
pub find-set_driver :
    (id j : ℕ) (d : Option Driver) (es : List RegistryEntry)
    → find_entry j (set_driver id d es)
      ≡ (if id == j then Option.map (with_driver d) (find_entry j es) else find_entry j es)
unfolding find_entry set_driver
find-set_driver id j d [] = ground arith
find-set_driver id j d (e ∷ es) = ground (arith, find-set_driver id j d es)
