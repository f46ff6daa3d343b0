-- ===== src/DriverFramework/Manager/Attach.antt =====
-- src/driver_framework/manager.rs: attaching and detaching drivers.
use mathlib.Core.Option
use neutrix.Base.{
  ℕ, ◌≡◌, refl, ◌∙◌, sym, ap, ◌⊎◌, inl, inr, Option, none, some, List, [], ◌∷◌, ◌++◌, ◌==◌,
  Bool-cases, Option-cases, arith,
}
use neutrix.DriverFramework.Device.{Driver}
use neutrix.DriverFramework.Manager.Ids.{IsValid, set_driver-Rising, find-set_driver, with_driver}
use neutrix.DriverFramework.Manager.{
  RegistryEntry, DeviceManager, Call, probed, started, stopped, released, find_entry, set_driver,
  attach_entry, attach_driver, detach_driver, Result, ok, err, Error, already_has_driver, no_device,
  probe_failed, start_failed,
}

-- `attach_driver` would succeed: the device is there, has no driver, and the driver takes it.
abbrev pub Attachable : DeviceManager → ℕ → Driver → RegistryEntry → Type 0
Attachable m id d e =
    (find_entry id m.devices ≡ some e)
    × (e.driver ≡ none)
    × (d.probe e.device ≡ none)
    × (d.start e.device ≡ none)

abbrev pub attached : DeviceManager → ℕ → Driver → DeviceManager
attached m id d = record m {
  devices = set_driver id (some d) m.devices;
  calls = started id ∷ probed id ∷ m.calls;
}

-- The ways in which `attach_driver` ends without attaching: what it answers, and the calls made.
pub data Refused (m : DeviceManager) (id : ℕ) (d : Driver) : Error → List Call → Type 0 where
  missing : find_entry id m.devices ≡ none → Refused m id d (no_device id) []
  taken :
      (e : RegistryEntry) (x : Driver)
      → find_entry id m.devices ≡ some e
      → e.driver ≡ some x
      → Refused m id d (already_has_driver id) []
  unprobed :
      (e : RegistryEntry) (text : List ℕ)
      → find_entry id m.devices ≡ some e
      → e.driver ≡ none
      → d.probe e.device ≡ some text
      → Refused m id d (probe_failed text) (probed id ∷ [])
  unstarted :
      (e : RegistryEntry) (text : List ℕ)
      → find_entry id m.devices ≡ some e
      → e.driver ≡ none
      → d.probe e.device ≡ none
      → d.start e.device ≡ some text
      → Refused m id d (start_failed text) (started id ∷ probed id ∷ [])

abbrev pub AttachCase : DeviceManager → ℕ → Driver → DeviceManager × Result → Type 0
AttachCase m id d r =
    ((e : RegistryEntry) × Attachable m id d e × (r ≡ (attached m id d, ok)))
    ⊎ ((x : Error) × (cs : List Call) × Refused m id d x cs
        × (r ≡ (record m { calls = cs ++ m.calls }, err x)))

attach_entry_cases :
    (m : DeviceManager) (id : ℕ) (d : Driver) (e : RegistryEntry)
    → find_entry id m.devices ≡ some e
    → AttachCase m id d (attach_entry m id d e)
unfolding attach_entry
attach_entry_cases m id d e f = elim (Option-cases e.driver) [
  | inr (x, o) ↦ inr (already_has_driver id, [], taken e x f o, rw (o, attach_entry) refl)
  | inl o ↦ elim (Option-cases (d.probe e.device)) [
    | inr (t, p) ↦
        inr (probe_failed t, probed id ∷ [], unprobed e t f o p, rw (o, p, attach_entry) refl)
    | inl p ↦ elim (Option-cases (d.start e.device)) [
      | inr (t, s) ↦ inr (
        start_failed t,
        started id ∷ probed id ∷ [],
        unstarted e t f o p s,
        rw (o, p, s, attach_entry) refl,
      )
      | inl s ↦ inl (e, (f, o, p, s), rw (o, p, s, attach_entry) refl)
    ]
  ]
]

-- `attach_driver` attaches exactly after one probe and one start that both accept, at an entry
-- without a driver; otherwise it answers with the reason, the registry is as it was, and it has
-- made the calls up to the one that failed.
pub attach_driver_cases :
    (m : DeviceManager) (id : ℕ) (d : Driver) → AttachCase m id d (attach_driver m id d)
unfolding attach_driver
attach_driver_cases m id d = elim (Option-cases (find_entry id m.devices)) [
  | inl f ↦ inr (no_device id, [], missing f, rw (f, attach_driver) refl)
  | inr (e, f) ↦
      let here : attach_driver m id d ≡ attach_entry m id d e = rw (f, attach_driver) refl in
      rw here (attach_entry_cases m id d e f)
]

-- `attach_driver` keeps the ids apart.
attach_driver-IsValid :
    (m : DeviceManager) (id : ℕ) (d : Driver) → IsValid m → IsValid (attach_driver m id d).0
attach_driver-IsValid m id d v = elim (attach_driver_cases m id d) [
  | inl (e, a, r) ↦ rw r (set_driver-Rising 0 m.next_device_id id (some d) m.devices v)
  | inr (x, cs, a, r) ↦ rw r v
]

set_driver-twice :
    (id : ℕ) (d d' : Option Driver) (es : List RegistryEntry)
    → set_driver id d (set_driver id d' es) ≡ set_driver id d es
unfolding set_driver
set_driver-twice id d d' [] = refl
set_driver-twice id d d' (e ∷ es) = ground (arith, set_driver-twice id d d' es)

set_driver-same :
    (id : ℕ) (e : RegistryEntry) (es : List RegistryEntry)
    → find_entry id es ≡ some e
    → set_driver id e.driver es ≡ es
unfolding set_driver find_entry
set_driver-same id e [] f = refl
set_driver-same id e (x ∷ es) f = elim (Bool-cases (x.device.id == id)) [
  | inl hit ↦
      let found : find_entry id (x ∷ es) ≡ some x = rw hit refl in
      let same : x ≡ e = Option.some-injective x e (sym found ∙ f) in
      rw hit (ap (λ (y : RegistryEntry). with_driver y.driver x ∷ es) (sym same))
  | inr miss ↦
      let next : find_entry id (x ∷ es) ≡ find_entry id es = rw miss refl in
      let rest = sym next ∙ f in rw miss (ap (λ zs. x ∷ zs) (set_driver-same id e es rest))
]

-- After an attach that succeeds, a second attach is refused and changes nothing, and a detach
-- stops and then releases the driver and gives back the registry as it was before.
pub detach-attach_driver :
    (m : DeviceManager) (id : ℕ) (d d' : Driver) (e : RegistryEntry)
    → Attachable m id d e
    → let m' = (attach_driver m id d).0 in
      (attach_driver m' id d' ≡ (m', err (already_has_driver id)))
      × (detach_driver m' id
          ≡ (record m { calls = released id ∷ stopped id ∷ started id ∷ probed id ∷ m.calls }, ok))
unfolding attach_driver attach_entry detach_driver
detach-attach_driver m id d d' e (f, o, p, s) =
    let there : find_entry id (set_driver id (some d) m.devices) ≡ some (with_driver (some d) e) =
      ground (arith, find-set_driver id id (some d) m.devices) in
    let back : set_driver id none (set_driver id (some d) m.devices) ≡ m.devices =
      set_driver-twice id none (some d) m.devices ∙ rw⁻¹ o (set_driver-same id e m.devices f) in
    let here : attach_driver m id d ≡ attach_entry m id d e = rw (f, attach_driver) refl in
    let took : attach_entry m id d e ≡ (attached m id d, ok) = rw (o, p, s, attach_entry) refl in
    let now = here ∙ took in
    rw now (rw (there, attach_driver) refl, rw (there, back, detach_driver) refl)
