-- ===== src/DriverFramework/Manager/Merge.antt =====
-- src/driver_framework/manager.rs: merging a description into a registered device.
use mathlib.Core.Logic.{ite, if_pos}
use neutrix.Base.{
  ℕ, ◌≡◌, refl, ◌∙◌, sym, ap, inl, inr, Bool, true, false, ◌||◌, Option, none, some, List, [], ◌∷◌,
  ◌++◌, ◌==◌, Bool-cases, ==_iff, arith,
}
use neutrix.DriverFramework.Device.{Resource, DeviceInfo, ResourceKind-discrete}
use neutrix.DriverFramework.Manager.{
  RegistryEntry, DeviceManager, has_resource, add_resources, merge_info, merge_entries,
  merge_or_register, ids_of, find_by_vid_pid,
}

-- The test that `has_resource` makes of one resource.
abbrev pub matches : Resource → Resource → Bool
matches e r = ite (ResourceKind-discrete e.kind r.kind) (e.addr == r.addr) false

matches_self : (r : Resource) → matches r r ≡ true
matches_self r =
    let same : (r.addr == r.addr) ≡ true = ground arith in
    rw (if_pos (ResourceKind-discrete r.kind r.kind) refl (r.addr == r.addr) false) same

has_resource-same :
    (x r : Resource) (es : List Resource)
    → x.kind ≡ r.kind
    → x.addr ≡ r.addr
    → has_resource x es ≡ has_resource r es
unfolding has_resource
has_resource-same x r [] k a = refl
has_resource-same x r (e ∷ es) k a = rw (k, a, has_resource-same x r es k a) refl

has_resource-matches :
    (x r : Resource) (es : List Resource)
    → matches x r ≡ true
    → has_resource x es ≡ has_resource r es
has_resource-matches x r es h =
    elim (ResourceKind-discrete x.kind r.kind)
        as (λ d. ite d (x.addr == r.addr) false ≡ true → has_resource x es ≡ has_resource r es) [
          | yes k ↦ λ t. has_resource-same x r es k ((==_iff x.addr r.addr).0 t)
          | no n ↦ λ t. ground (arith, t)
        ]
      h

has_resource-append :
    (r : Resource) (es : List Resource) (x : Resource)
    → has_resource r (es ++ (x ∷ [])) ≡ has_resource r es || matches x r
unfolding has_resource
has_resource-append r [] x = ground arith
has_resource-append r (e ∷ es) x = ground (arith, has_resource-append r es x)

or_absorbs : (a b c : Bool) → (b ≡ true → a ≡ true) → a || c ≡ a || (b || c)
or_absorbs a b c h = ground (arith, h)

or_assoc : (a b c : Bool) → (a || b) || c ≡ a || (b || c)
or_assoc a b c = ground arith

pub has_resource-add_resources :
    (r : Resource) (es rs : List Resource)
    → has_resource r (add_resources es rs) ≡ has_resource r es || has_resource r rs
unfolding add_resources has_resource
has_resource-add_resources r es [] = ground arith
has_resource-add_resources r es (x ∷ rs) = elim (Bool-cases (has_resource x es)) [
  | inl b ↦ rw b (
      has_resource-add_resources r es rs
      ∙ or_absorbs (has_resource r es) (matches x r) (has_resource r rs)
          (λ k. sym (has_resource-matches x r es k) ∙ b))
  | inr b ↦ rw b (
      has_resource-add_resources r (es ++ (x ∷ [])) rs
      ∙ (rw (has_resource-append r es x)
          (or_assoc (has_resource r es) (matches x r) (has_resource r rs))))
]

has_resource-later :
    (r x : Resource) (rs : List Resource)
    → has_resource r rs ≡ true
    → has_resource r (x ∷ rs) ≡ true
unfolding has_resource
has_resource-later r x rs k = ground (arith, k)

add_resources-covered :
    (es rs : List Resource)
    → ((r : Resource) → has_resource r rs ≡ true → has_resource r es ≡ true)
    → add_resources es rs ≡ es
unfolding add_resources has_resource
add_resources-covered es [] h = refl
add_resources-covered es (x ∷ rs) h =
    let first : has_resource x (x ∷ rs) ≡ true = rw (matches_self x) refl in
    rw (h x first) (add_resources-covered es rs (λ r k. h r (has_resource-later r x rs k)))

-- Merging the same resources a second time adds nothing.
pub add_resources-idempotent :
    (es rs : List Resource) → add_resources (add_resources es rs) rs ≡ add_resources es rs
add_resources-idempotent es rs =
    add_resources-covered (add_resources es rs) rs
      λ r k. ground (arith, has_resource-add_resources r es rs, k)

abbrev pub first : List ℕ → Option ℕ
first [] = none
first (id ∷ ids) = some id

merge_entries-first :
    (es : List RegistryEntry) (info : DeviceInfo)
    → (merge_entries es info).1 ≡ first (ids_of info.vendor_id info.device_id es)
unfolding merge_entries ids_of
merge_entries-first [] info = refl
merge_entries-first (e ∷ es) info = ground (arith, merge_entries-first es info)

merge_entries-ids_of :
    (es : List RegistryEntry) (info : DeviceInfo) (vendor device : ℕ)
    → ids_of vendor device (merge_entries es info).0 ≡ ids_of vendor device es
unfolding merge_entries ids_of merge_info
merge_entries-ids_of [] info vendor device = refl
merge_entries-ids_of (e ∷ es) info vendor device =
    ground (arith, merge_entries-ids_of es info vendor device)

merge_entries-none :
    (es : List RegistryEntry) (info : DeviceInfo)
    → (merge_entries es info).1 ≡ none
    → (merge_entries es info).0 ≡ es
unfolding merge_entries
merge_entries-none [] info h = refl
merge_entries-none (e ∷ es) info h = ground (arith, h, merge_entries-none es info)

-- `merge_or_register` answers with the first device that `find_by_vid_pid` lists under the
-- description's ids, changes no lookup by ids, and without such a device changes nothing.
pub merge_or_register_lem :
    (m : DeviceManager) (info : DeviceInfo)
    → let (m', r) = merge_or_register m info in
      (r ≡ first (find_by_vid_pid m info.vendor_id info.device_id))
      × ((vendor device : ℕ) → find_by_vid_pid m' vendor device ≡ find_by_vid_pid m vendor device)
      × (r ≡ none → m' ≡ m)
unfolding merge_or_register find_by_vid_pid
merge_or_register_lem m info = (
  merge_entries-first m.devices info,
  merge_entries-ids_of m.devices info,
  λ h. ap (λ es. record m { devices = es }) (merge_entries-none m.devices info h),
)
