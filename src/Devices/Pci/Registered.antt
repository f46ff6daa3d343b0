-- ===== src/Devices/Pci/Registered.antt =====
-- src/devices/pci.rs: what `add_device` does to the device manager's lists by ids.
use neutrix.Base.{
  ℕ, ◌≡◌, ◌≢◌, refl, sym, ap, ◌∙◌, ◌⊎◌, inl, inr, Option, Option-cases, none, some, List, [], ◌∷◌,
  ◌++◌, arith,
}
use mathlib.Core.Path.{subst, ap₂}
use neutrix.DriverFramework.Device.{DeviceInfo}
use neutrix.DriverFramework.Manager.{
  RegistryEntry, DeviceManager, merge_or_register, register_device, ids_of, find_by_vid_pid,
}
use neutrix.DriverFramework.Manager.Merge.{first, merge_or_register_lem}
use neutrix.Devices.Pci.Scan.{add_device}

-- A device is listed under these ids.
abbrev pub Known : DeviceManager → (vendor device : ℕ) → Type 0
Known m vendor device = find_by_vid_pid m vendor device ≢ []

none-some : {A : Type 0} {a : A} → none ≡ some a → ⊥
none-some e = cc

append-ne-nil : {A : Type 0} (xs ys : List A) → (xs ≢ []) ⊎ (ys ≢ []) → xs ++ ys ≢ []
append-ne-nil [] ys (inl h) = absurd (h refl)
append-ne-nil [] ys (inr h) = h
append-ne-nil (x ∷ xs) ys h = λ e. absurd (cc e)

ids_of-append :
    (v d : ℕ) (es fs : List RegistryEntry) → ids_of v d (es ++ fs) ≡ ids_of v d es ++ ids_of v d fs
unfolding ids_of
ids_of-append v d [] fs = refl
ids_of-append v d (e ∷ es) fs = ground (arith, ids_of-append v d es fs)

-- A device that is registered is listed behind those that were.
find_by_vid_pid-register_device :
    (m : DeviceManager) (info : DeviceInfo) (v d : ℕ)
    → (Known m v d ⊎ ((info.vendor_id ≡ v) × (info.device_id ≡ d)))
    → Known (register_device m info).0 v d
unfolding find_by_vid_pid register_device
find_by_vid_pid-register_device m info v d known =
    let entry : RegistryEntry = record {
      device = record { id = m.next_device_id; info = info };
      driver = none;
    } in
    rw (ids_of-append v d m.devices (entry ∷ [])) (
      append-ne-nil (ids_of v d m.devices) (ids_of v d (entry ∷ []))
        (elim known [ inl h ↦ inl h | inr (ev, ed) ↦ inr (λ e. absurd (ground arith)) ]))

-- A merge into a device means that it is listed.
listed :
    (m : DeviceManager) (info : DeviceInfo) (v d id : ℕ)
    → first (find_by_vid_pid m info.vendor_id info.device_id) ≡ some id
    → ((info.vendor_id ≡ v) × (info.device_id ≡ d))
    → Known m v d
listed m info v d id is (ev, ed) e =
    none-some (ap first (sym e) ∙ ap₂ (λ v d. first (find_by_vid_pid m v d)) (sym ev) (sym ed) ∙ is)

-- The two ends of `add_device`: what is known stays known, and the device is.
pub add_device-Known :
    (info : DeviceInfo) (m : DeviceManager) (v d : ℕ)
    → (Known m v d ⊎ ((info.vendor_id ≡ v) × (info.device_id ≡ d)))
    → Known (add_device info m) v d
add_device-Known info m v d known =
    let (merged, existing) = merge_or_register m info in
    let (is_first, lookups, _) = merge_or_register_lem m info in
    let added : Option ℕ → DeviceManager =
      λ o. elim o [ some _ ↦ merged | none ↦ (register_device merged info).0 ] in
    let still : Known m v d → Known merged v d = λ h e. h (sym (lookups v d) ∙ e) in
    elim (Option-cases existing) [
      | inl e ↦
          subst (λ o. Known (added o) v d) (sym e)
            (find_by_vid_pid-register_device merged info v d
              (elim known [ inl h ↦ inl (still h) | inr own ↦ inr own ]))
      | inr (id, e) ↦
          subst (λ o. Known (added o) v d) (sym e)
            (still
              (elim known [ inl h ↦ h | inr own ↦ listed m info v d id (sym is_first ∙ e) own ]))
    ]
