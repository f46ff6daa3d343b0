-- ===== src/DriverFramework/Device.antt =====
-- src/driver_framework/device.rs and driver.rs: device descriptions and the driver interface.
pub mod ClassText
mod Tests
use native.Mathlib.Decide.{ℕ_discrete}
use neutrix.Base.{ℕ, Bool, true, false, Option, List, [], ◌∷◌, if◌then◌else◌}

pub data ResourceKind : Type 0 where
  memory_mapped io : ResourceKind
  interrupt : ℕ → ResourceKind
  msi : (vectors : ℕ) (addr64 maskable : Bool) (msg_addr msg_data : ℕ) → ResourceKind
  msix :
      (table_bar table_offset table_size : ℕ) (table_present first_entry_masked : Bool)
      → ResourceKind

pub record Resource : Type 0 where
  pub kind : ResourceKind
  pub addr : ℕ
  pub len : ℕ

pub data Capability : Type 0 where
  power_management : (pm_cap pmcsr : ℕ) → Capability
  pci_express : (header device_cap : ℕ) → Capability
  other : (id raw0 raw1 : ℕ) → Capability

-- A description is kept as its bytes.
pub record DeviceInfo : Type 0 where
  pub vendor_id : ℕ
  pub device_id : ℕ
  pub class : ℕ
  pub subclass : ℕ
  pub prog_if : ℕ
  pub resources : List Resource
  pub capabilities : List Capability
  pub description : List ℕ

pub record Device : Type 0 where
  pub id : ℕ
  pub info : DeviceInfo

-- The derived equality of resource kinds.
pub ResourceKind-discrete : Discrete ResourceKind
ResourceKind-discrete = hlevel ℕ_discrete

pub Capability-discrete : Discrete Capability
Capability-discrete = hlevel ℕ_discrete

abbrev pub is_msi : ResourceKind → Bool
is_msi (msi _ _ _ _ _) = true
is_msi _ = false

abbrev pub is_msix : ResourceKind → Bool
is_msix (msix _ _ _ _ _) = true
is_msix _ = false

unfoldable pub filter_kind : (ResourceKind → Bool) → List Resource → List Resource
filter_kind p [] = []
filter_kind p (r ∷ rs) = if p r.kind then r ∷ filter_kind p rs else filter_kind p rs

unfoldable pub msi_resources : Device → List Resource
msi_resources d = filter_kind is_msi d.info.resources

unfoldable pub msix_resources : Device → List Resource
msix_resources d = filter_kind is_msix d.info.resources

-- The trait `Driver`: `probe` and `start` answer with an error text or accept. What the calls do
-- to a driver's own state is the driver's; the manager's calls are recorded by it.
pub record Driver : Type 0 where
  pub probe : Device → Option (List ℕ)
  pub start : Device → Option (List ℕ)
