-- ===== src/Devices/Acpi/Grew.antt =====
-- src/devices/acpi/acpi.rs: what reading the tables leaves of what was known before.
use mathlib.Core.List.{append-nil, append_assoc}
use neutrix.Base.{
  ℕ, zero, suc, ◌+◌, ◌≡◌, refl, ◌∙◌, sym, inl, inr, Bool, true, false, not, ◌||◌, ◌==◌, leb, ltb,
  Option, some, Option-cases, List, [], ◌∷◌, ◌++◌, if◌then◌else◌, Bool-cases, Ram, add64,
}
use neutrix.Arch.Ports.{Ports}
use neutrix.DriverFramework.Device.{DeviceInfo}
use neutrix.DriverFramework.Manager.{register_device}
use neutrix.Devices.Acpi.Tables.{Rsdp, view_rsdp, view_acpi_table_header}
use neutrix.Devices.Acpi.Tables.Controllers.{
  IoApicInfo, IsoInfo, McfgAllocation, view_madt, view_madt_entry_header, view_mcfg_allocation,
  view_mcfg, view_hpet,
}
use neutrix.Devices.Acpi.{
  rsdt_table_address, xsdt_table_address, rsdt_entry_count, xsdt_entry_count, checksum_valid,
  eq_bytes, table_address, find_rsdp,
}
use neutrix.Devices.Acpi.Parse.{
  Acpi, Texts, described, registered, parse_entry, parse_entries, parse_madt, parse_hpet,
  parse_allocs, parse_mcfg, parse_facp, parse_specific_table, print_table_info, list_tables,
  parse_rsdt_xsdt, init_with_offset,
}

abbrev pub Extends {ℓ} : {A : Type ℓ} → List A → List A → Type ℓ
Extends {A = A} xs ys = (zs : List A) × (ys ≡ xs ++ zs)

module _ {ℓ} {A : Type ℓ} where
  Extends-refl : (xs : List A) → Extends xs xs
  Extends-refl xs = ([], sym (append-nil xs))

  Extends-trans : (xs ys zs : List A) → Extends xs ys → Extends ys zs → Extends xs zs
  Extends-trans xs ys zs (us, e) (vs, f) = (us ++ vs, f ∙ rw e (append_assoc xs us vs))

module _ {io : Ports} where
  -- Registered devices stay as they are, in their places, and no driver is called; so do the
  -- controllers, overrides and PCI regions that were noted.
  pub record Grew (s t : Acpi io) : Type 0 where
    pub devices : Extends s.manager.devices t.manager.devices
    pub calls : t.manager.calls ≡ s.manager.calls
    pub ioapics : Extends s.ioapics t.ioapics
    pub isos : Extends s.isos t.isos
    pub mcfg_allocs : Extends s.mcfg_allocs t.mcfg_allocs

  Grew-refl : (s : Acpi io) → Grew s s
  Grew-refl s = record {
    devices = Extends-refl s.manager.devices;
    calls = refl;
    ioapics = Extends-refl s.ioapics;
    isos = Extends-refl s.isos;
    mcfg_allocs = Extends-refl s.mcfg_allocs;
  }

  -- A change of the other fields.
  Grew-kept :
      (s t : Acpi io)
      → t.manager ≡ s.manager
      → t.ioapics ≡ s.ioapics
      → t.isos ≡ s.isos
      → t.mcfg_allocs ≡ s.mcfg_allocs
      → Grew s t
  Grew-kept s t e a o c = record {
    devices = rw e (Extends-refl s.manager.devices);
    calls = rw e refl;
    ioapics = rw a (Extends-refl s.ioapics);
    isos = rw o (Extends-refl s.isos);
    mcfg_allocs = rw c (Extends-refl s.mcfg_allocs);
  }

  Grew-trans : (s t u : Acpi io) → Grew s t → Grew t u → Grew s u
  Grew-trans s t u g h = record {
    devices =
        Extends-trans s.manager.devices t.manager.devices u.manager.devices g.devices h.devices;
    calls = h.calls ∙ g.calls;
    ioapics = Extends-trans s.ioapics t.ioapics u.ioapics g.ioapics h.ioapics;
    isos = Extends-trans s.isos t.isos u.isos g.isos h.isos;
    mcfg_allocs =
        Extends-trans s.mcfg_allocs t.mcfg_allocs u.mcfg_allocs g.mcfg_allocs h.mcfg_allocs;
  }

  registered-Grew : (info : DeviceInfo) (s : Acpi io) → Grew s (registered info s)
  unfolding register_device
  registered-Grew info s = record {
    devices = (_ ∷ [], refl);
    calls = refl;
    ioapics = Extends-refl s.ioapics;
    isos = Extends-refl s.isos;
    mcfg_allocs = Extends-refl s.mcfg_allocs;
  }

  with_ioapic-Grew :
      (a : IoApicInfo) (s : Acpi io) → Grew s (record s { ioapics = s.ioapics ++ (a ∷ []) })
  with_ioapic-Grew a s = record {
    devices = Extends-refl s.manager.devices;
    calls = refl;
    ioapics = (a ∷ [], refl);
    isos = Extends-refl s.isos;
    mcfg_allocs = Extends-refl s.mcfg_allocs;
  }

  with_iso-Grew : (o : IsoInfo) (s : Acpi io) → Grew s (record s { isos = s.isos ++ (o ∷ []) })
  with_iso-Grew o s = record {
    devices = Extends-refl s.manager.devices;
    calls = refl;
    ioapics = Extends-refl s.ioapics;
    isos = (o ∷ [], refl);
    mcfg_allocs = Extends-refl s.mcfg_allocs;
  }

  with_alloc-Grew :
      (a : McfgAllocation) (s : Acpi io)
      → Grew s (record s { mcfg_allocs = s.mcfg_allocs ++ (a ∷ []) })
  with_alloc-Grew a s = record {
    devices = Extends-refl s.manager.devices;
    calls = refl;
    ioapics = Extends-refl s.ioapics;
    isos = Extends-refl s.isos;
    mcfg_allocs = (a ∷ [], refl);
  }

  parse_entry-Grew :
      (texts : Texts) (m : Ram) (p : ℕ) (s : Acpi io) → Grew s (parse_entry texts m p s)
  unfolding parse_entry
  parse_entry-Grew texts m p s =
      let header = view_madt_entry_header m p in
      elim (Bool-cases (header.entry_type == 1)) [
        | inl e1 ↦ elim (Bool-cases (leb 12 header.length)) [
          | inl long ↦ rw (e1, long) (Grew-trans s _ _ (with_ioapic-Grew _ s) (registered-Grew _ _))
          | inr short ↦ rw (e1, short) (Grew-refl s)
        ]
        | inr n1 ↦ elim (Bool-cases (header.entry_type == 2)) [
          | inl e2 ↦ elim (Bool-cases (leb 10 header.length)) [
            | inl long ↦ rw (n1, e2, long) (with_iso-Grew _ s)
            | inr short ↦ rw (n1, e2, short) (Grew-refl s)
          ]
          | inr n2 ↦ rw (n1, n2) (Grew-refl s)
        ]
      ]

  parse_entries-Grew :
      (texts : Texts) (m : Ram) (table len fuel offset : ℕ) (s : Acpi io)
      → Grew s (parse_entries texts m table len fuel offset s)
  unfolding parse_entries
  parse_entries-Grew texts m table len zero offset s = Grew-refl s
  parse_entries-Grew texts m table len (suc fuel) offset s =
      let header = view_madt_entry_header m (table + offset) in
      let s1 = parse_entry texts m (table + offset) s in
      elim (Bool-cases (ltb offset len)) [
        | inr past ↦ rw past (Grew-refl s)
        | inl ahead ↦ elim (Bool-cases (header.length == 0)) [
          | inl empty ↦ rw (ahead, empty) (Grew-refl s)
          | inr some_length ↦
              rw (ahead, some_length)
                (Grew-trans s s1 _ (parse_entry-Grew texts m (table + offset) s)
                  (parse_entries-Grew texts m table len fuel (offset + header.length) s1))
        ]
      ]

  parse_madt-Grew :
      (texts : Texts) (m : Ram) (p : ℕ) (s : Acpi io) → Grew s (parse_madt texts m p s)
  unfolding parse_madt
  parse_madt-Grew texts m p s = elim (Bool-cases (p == 0 || not (checksum_valid m p))) [
    | inl bad ↦ rw bad (Grew-refl s)
    | inr good ↦
        let len = (view_madt m p).header.length in
        let s1 = record s { local_apic_addr = (view_madt m p).local_apic_addr } in
        rw good (Grew-trans s s1 _ (noted s) (parse_entries-Grew texts m p len len 44 s1))
  ]
    where
      noted :
          (s : Acpi io) → Grew s (record s { local_apic_addr = (view_madt m p).local_apic_addr })
      noted s = Grew-kept s _ refl refl refl refl

  parse_hpet-Grew :
      (texts : Texts) (m : Ram) (p : ℕ) (s : Acpi io) → Grew s (parse_hpet texts m p s)
  unfolding parse_hpet
  parse_hpet-Grew texts m p s = elim (Bool-cases (p == 0 || not (checksum_valid m p))) [
    | inl bad ↦ rw bad (Grew-refl s)
    | inr good ↦ elim (Bool-cases ((view_hpet m p).address.address == 0)) [
      | inl absent ↦ rw (good, absent) (Grew-refl s)
      | inr there ↦
          rw (good, there)
            (Grew-trans s (noted s) _ (Grew-kept s (noted s) refl refl refl refl)
              (registered-Grew _ (noted s)))
    ]
  ]
    where
      noted : Acpi io → Acpi io
      noted s = record s {
        hpet_base = some (view_hpet m p).address.address;
        hpet_period_fs = (view_hpet m p).period;
      }

  parse_allocs-Grew :
      (texts : Texts) (m : Ram) (p len fuel offset : ℕ) (s : Acpi io)
      → Grew s (parse_allocs texts m p len fuel offset s)
  unfolding parse_allocs
  parse_allocs-Grew texts m p len zero offset s = Grew-refl s
  parse_allocs-Grew texts m p len (suc fuel) offset s = elim (Bool-cases (leb (offset + 16) len)) [
    | inr past ↦ rw past (Grew-refl s)
    | inl ahead ↦ rw ahead (
        Grew-trans s _ _
          (Grew-trans s _ _ (registered-Grew _ s)
            (with_alloc-Grew (view_mcfg_allocation m (p + offset)) _))
          (parse_allocs-Grew texts m p len fuel (offset + 16) _))
  ]

  parse_mcfg-Grew :
      (texts : Texts) (m : Ram) (p : ℕ) (s : Acpi io) → Grew s (parse_mcfg texts m p s)
  unfolding parse_mcfg
  parse_mcfg-Grew texts m p s = elim (Bool-cases (p == 0)) [
    | inl null ↦ rw null (Grew-refl s)
    | inr there ↦
        let len = (view_mcfg m p).header.length in
        rw there (parse_allocs-Grew texts m p len len 44 s)
  ]

  parse_facp-Grew : (m : Ram) (p : ℕ) (s : Acpi io) → Grew s (parse_facp m p s)
  unfolding parse_facp
  parse_facp-Grew m p s = Grew-kept s _ refl refl refl refl

  Grew-if : (b : Bool) (s t u : Acpi io) → Grew s t → Grew s u → Grew s (if b then t else u)
  Grew-if true s t u g h = g
  Grew-if false s t u g h = h

  parse_specific_table-Grew :
      (texts : Texts) (m : Ram) (signature : List ℕ) (p : ℕ) (s : Acpi io)
      → Grew s (parse_specific_table texts m signature p s)
  unfolding parse_specific_table
  parse_specific_table-Grew texts m sig p s =
      Grew-if (eq_bytes sig (b'F' ∷ b'A' ∷ b'C' ∷ b'P' ∷ [])) s _ _ (parse_facp-Grew m p s) (
        Grew-if (eq_bytes sig (b'A' ∷ b'P' ∷ b'I' ∷ b'C' ∷ [])) s _ _ (parse_madt-Grew texts m p s)
          (Grew-if (eq_bytes sig (b'H' ∷ b'P' ∷ b'E' ∷ b'T' ∷ [])) s _ _
            (parse_hpet-Grew texts m p s)
            (Grew-if (eq_bytes sig (b'M' ∷ b'C' ∷ b'F' ∷ b'G' ∷ [])) s _ _
              (parse_mcfg-Grew texts m p s) (Grew-refl s))))

  print_table_info-Grew :
      (texts : Texts) (m : Ram) (off addr : ℕ) (s : Acpi io)
      → Grew s (print_table_info texts m off addr s)
  unfolding print_table_info
  print_table_info-Grew texts m off addr s =
      let p = add64 addr off in
      let header = view_acpi_table_header m p in
      let info = described 0xffff 0xFF addr header.length (texts.table_text header.signature) in
      Grew-if (p == 0) s _ _ (Grew-refl s) (
        Grew-if (checksum_valid m p) s _ _
          (Grew-trans s (registered info s) _ (registered-Grew info s)
            (parse_specific_table-Grew texts m header.signature p (registered info s)))
          (Grew-refl s))

  list_tables-Grew :
      (texts : Texts) (m : Ram) (off : ℕ) (address : ℕ → Option ℕ) (n i : ℕ) (s : Acpi io)
      → Grew s (list_tables texts m off address n i s)
  unfolding list_tables
  list_tables-Grew texts m off address zero i s = Grew-refl s
  list_tables-Grew texts m off address (suc n) i s = elim (Option-cases (address i)) [
    | inl e ↦ rw e (list_tables-Grew texts m off address n (i + 1) s)
    | inr (a, e) ↦ rw e (
        Grew-trans s (print_table_info texts m off a s) _ (print_table_info-Grew texts m off a s)
          (list_tables-Grew texts m off address n (i + 1) (print_table_info texts m off a s)))
  ]

  parse_rsdt_xsdt-Grew :
      (texts : Texts) (m : Ram) (r : Rsdp) (off : ℕ) (s : Acpi io)
      → Grew s (parse_rsdt_xsdt texts m r off s)
  unfolding parse_rsdt_xsdt
  parse_rsdt_xsdt-Grew texts m r off s =
      let p = add64 (table_address r) off in
      let header = view_acpi_table_header m p in
      Grew-if (not (checksum_valid m p)) s _ _ (Grew-refl s) (
        Grew-if (eq_bytes header.signature (b'R' ∷ b'S' ∷ b'D' ∷ b'T' ∷ [])) s _ _
          (list_tables-Grew texts m off (rsdt_table_address m p) (rsdt_entry_count header) 0 s)
          (Grew-if (eq_bytes header.signature (b'X' ∷ b'S' ∷ b'D' ∷ b'T' ∷ [])) s _ _
            (list_tables-Grew texts m off (xsdt_table_address m p) (xsdt_entry_count header) 0 s)
            (Grew-refl s)))

  -- Whatever lies in memory, initialising ACPI only adds: devices that were registered stay as they
  -- are and in their places, no driver is called, and the controllers, overrides and PCI regions
  -- that were noted stay in front of the new ones.
  pub init_with_offset-Grew :
      (texts : Texts) (m : Ram) (off : ℕ) (s : Acpi io) → Grew s (init_with_offset texts m off s)
  unfolding init_with_offset
  init_with_offset-Grew texts m off s = elim (Option-cases (find_rsdp m off)) [
    | inl e ↦ rw (e, init_with_offset) (Grew-refl s)
    | inr (p, e) ↦ rw (e, init_with_offset) (parse_rsdt_xsdt-Grew texts m (view_rsdp m p) off s)
  ]
