-- ===== src/Devices/Pci/Caps.antt =====
-- src/devices/pci.rs: the capability list of a function, read through the ports.
use neutrix.Base.{
  ℕ, zero, suc, ◌+◌, ◌*◌, ◌/◌, ◌%◌, ◌^◌, Bool, true, false, not, none, some, List, [], ◌∷◌, ◌++◌,
  ◌==◌, if◌then◌else◌, get_elem?, u8, add64,
}
use neutrix.Arch.Machine.{Machine}
use neutrix.DriverFramework.Device.{
  Resource, ResourceKind, memory_mapped, msi, msix, Capability, power_management, pci_express,
  other,
}
use neutrix.Devices.Pci.{pci_read}

-- `(dword >> ((offset & 3) * 8)) & 0xFFFF`
abbrev pub word_at : (dword offset : ℕ) → ℕ
word_at dword offset = dword / 2 ^ (offset % 4 * 8) % 2 ^ 16

-- `dword >> ((offset & 3) * 8)`
abbrev pub shifted : (dword offset : ℕ) → ℕ
shifted dword offset = dword / 2 ^ (offset % 4 * 8)

abbrev pub is_memory : ResourceKind → Bool
is_memory memory_mapped = true
is_memory _ = false

-- The memory-mapped resources.
abbrev pub mmio_bars : List Resource → List Resource
mmio_bars [] = []
mmio_bars (r ∷ rs) = if is_memory r.kind then r ∷ mmio_bars rs else mmio_bars rs

abbrev pub bare : ResourceKind → Resource
bare kind = record { kind = kind; addr = 0; len = 0 }

-- The state of the walk: what was found, and the hardware.
pub record Walk (mc : Machine) : Type 0 where
  pub resources : List Resource
  pub capabilities : List Capability
  pub hardware : mc.ports.Hardware

-- The function that is read, and where physical memory is mapped.
pub record Place : Type 0 where
  pub bus : ℕ
  pub slot : ℕ
  pub func : ℕ
  pub physical_memory_offset : ℕ

module _ (mc : Machine) (at : Place) where
  abbrev pub read_at : ℕ → mc.ports.Hardware → ℕ × mc.ports.Hardware
  read_at off h = pci_read mc at.bus at.slot at.func off h

  unfoldable pub parse_power_management : (cap_ptr cap_dword : ℕ) → Walk mc → Walk mc
  unfolding pci_read
  parse_power_management cap_ptr cap_dword s =
      let (dword, h) = read_at (u8 (cap_ptr + 4)) s.hardware in
      let found = power_management (cap_dword / 2 ^ 16 % 2 ^ 16) (word_at dword (cap_ptr + 4)) in
      record s { capabilities = s.capabilities ++ (found ∷ []); hardware = h }

  -- The address above 4 GiB and the data, by the form of the capability.
  unfoldable pub message_tail :
      (off_addr : ℕ) → (addr64 : Bool) → mc.ports.Hardware → ℕ × ℕ × mc.ports.Hardware
  unfolding pci_read
  message_tail off_addr true h =
      let off_high = u8 (off_addr + 4) in
      let off_data = u8 (off_addr + 8) in
      let (high, h1) = read_at off_high h in
      let (dword, h2) = read_at off_data h1 in (shifted high off_high, word_at dword off_data, h2)
  message_tail off_addr false h =
      let off_data = u8 (off_addr + 4) in
      let (dword, h1) = read_at off_data h in (0, word_at dword off_data, h1)

  unfoldable pub parse_msi : (cap_ptr : ℕ) → Walk mc → Walk mc
  unfolding message_tail
  parse_msi cap_ptr s =
      let (ctrl_dword, h1) = read_at (u8 (cap_ptr + 2)) s.hardware in
      let ctrl = word_at ctrl_dword (cap_ptr + 2) in
      let vectors = 2 ^ (ctrl / 2 % 8) in
      let addr64 = not (ctrl / 2 ^ 7 % 2 == 0) in
      let maskable = not (ctrl / 2 ^ 8 % 2 == 0) in
      let off_addr = u8 (cap_ptr + 4) in
      let (low_dword, h2) = read_at off_addr h1 in
      let (high, msg_data, h3) = message_tail off_addr addr64 h2 in
      let msg_addr = high * 2 ^ 32 + shifted low_dword off_addr in
      record s {
        resources = s.resources ++ (bare (msi vectors addr64 maskable msg_addr msg_data) ∷ []);
        hardware = h3;
      }

  unfoldable pub parse_pci_express : (cap_ptr : ℕ) → Walk mc → Walk mc
  unfolding pci_read
  parse_pci_express cap_ptr s =
      let (d0, h1) = read_at cap_ptr s.hardware in
      let (d1, h2) = read_at (u8 (cap_ptr + 4)) h1 in
      record s { capabilities = s.capabilities ++ (pci_express d0 d1 ∷ []); hardware = h2 }

  -- Whether the table's first entry could be read, and whether it is masked.
  abbrev pub probe_table : (bir table_offset : ℕ) → Walk mc → Bool × Bool
  probe_table bir table_offset s =
      let found : Bool × Bool = elim (get_elem? (mmio_bars s.resources) bir) [
        | none ↦ (false, false)
        | some bar ↦
            let virt = add64 at.physical_memory_offset (add64 bar.addr table_offset) in
            (true, not (mc.read_volatile s.hardware (virt + 12) % 2 == 0))
      ] in
      if at.physical_memory_offset == 0 then (false, false) else found

  unfoldable pub parse_msix : (cap_ptr : ℕ) → Walk mc → Walk mc
  unfolding pci_read
  parse_msix cap_ptr s =
      let (dword1, h1) = read_at (u8 (cap_ptr + 4)) s.hardware in
      let table = shifted dword1 (cap_ptr + 4) in
      let bir = table % 8 in
      let table_offset = table / 8 * 8 in
      let (dword0, h2) = read_at (u8 (cap_ptr + 2)) h1 in
      let table_size = shifted dword0 (cap_ptr + 2) % 2 ^ 11 + 1 in
      let s1 = record s { hardware = h2 } in
      let (present, masked) = probe_table bir table_offset s1 in
      record s1 {
        resources = s.resources ++ (bare (msix bir table_offset table_size present masked) ∷ []);
      }

  unfoldable pub parse_other : (cap_id cap_ptr : ℕ) → Walk mc → Walk mc
  unfolding pci_read
  parse_other cap_id cap_ptr s =
      let (r0, h1) = read_at cap_ptr s.hardware in
      let (r1, h2) = read_at (u8 (cap_ptr + 4)) h1 in
      record s { capabilities = s.capabilities ++ (other cap_id r0 r1 ∷ []); hardware = h2 }

  -- What a capability is read as.
  unfoldable pub parse_cap : (cap_ptr cap_dword : ℕ) → Walk mc → Walk mc
  unfolding parse_power_management parse_msi parse_pci_express parse_msix parse_other
  parse_cap cap_ptr cap_dword s =
      let cap_id = cap_dword % 256 in
      if cap_id == 0x01
      then parse_power_management cap_ptr cap_dword s
      else (if cap_id == 0x05
          then parse_msi cap_ptr s
          else (if cap_id == 0x10
              then parse_pci_express cap_ptr s
              else (if cap_id == 0x11 then parse_msix cap_ptr s else parse_other cap_id cap_ptr s)))

  -- The loop from `cap_ptr` on, while `n` capabilities may be searched.
  unfoldable pub walk_caps : (n cap_ptr : ℕ) → Walk mc → Walk mc
  unfolding parse_cap
  walk_caps zero cap_ptr s = s
  walk_caps (suc n) cap_ptr s =
      let (cap_dword, h) = read_at cap_ptr s.hardware in
      let rest =
        walk_caps n (cap_dword / 2 ^ 8 % 256)
          (parse_cap cap_ptr cap_dword (record s { hardware = h })) in
      if cap_ptr == 0 then s else rest

  unfoldable pub read_capabilities : Walk mc → Walk mc
  unfolding walk_caps
  read_capabilities s =
      let (status, h1) = read_at 0x04 s.hardware in
      let (first, h2) = read_at 0x34 h1 in
      let listed = walk_caps 48 (first % 256) (record s { hardware = h2 }) in
      if not (status / 2 ^ 16 / 2 ^ 4 % 2 == 0) then listed else record s { hardware = h1 }
