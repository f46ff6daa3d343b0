-- ===== src/Devices/Acpi/Madt.antt =====
-- src/devices/acpi/acpi.rs: a table on interrupt controllers that is laid out as its entries.
use neutrix.Base.{
  ℕ, zero, suc, ◌+◌, ◌/◌, ◌%◌, ◌^◌, ◌<◌, ◌≡◌, ◌≢◌, refl, sym, true, false, List, [], ◌∷◌, ◌++◌,
  ◌==◌, ltb, length, length-append, All, Ram, Holds, load16, load32, arith,
}
use neutrix.Arch.Ports.{Ports}
use neutrix.Devices.Acpi.Tables.Controllers.{IoApicInfo, IsoInfo, view_madt, view_madt_entry_header}
use neutrix.Devices.Acpi.{checksum_valid}
use neutrix.Devices.Acpi.Parse.{
  Acpi, Texts, described, registered, parse_entry, parse_entries, parse_madt,
}

-- An entry of the table: a controller, an override, or one of a type that is not read.
pub data Entry : Type 0 where
  io_apic : IoApicInfo → Entry
  override : IsoInfo → Entry
  ignored : (entry_type : ℕ) (rest : List ℕ) → Entry

-- The values fit their fields.
abbrev pub IsEntry : Entry → Type 0
IsEntry (io_apic a) = (a.id < 2 ^ 8) × (a.addr < 2 ^ 32) × (a.gsi_base < 2 ^ 32)
IsEntry (override o) = (o.bus < 2 ^ 8) × (o.source < 2 ^ 8) × (o.gsi < 2 ^ 32) × (o.flags < 2 ^ 16)
IsEntry (ignored t rest) = (t ≢ 1) × (t ≢ 2)

-- `v` as `n` bytes in front of `rest`, the low byte first.
abbrev pub bytes_of : ℕ → ℕ → List ℕ → List ℕ
bytes_of zero v rest = rest
bytes_of (suc n) v rest = v % 256 ∷ bytes_of n (v / 256) rest

abbrev pub encode_entry : Entry → List ℕ → List ℕ
encode_entry (io_apic a) rest = 1 ∷ 12 ∷ a.id ∷ 0 ∷ bytes_of 4 a.addr (bytes_of 4 a.gsi_base rest)
encode_entry (override o) rest =
    2 ∷ 10 ∷ o.bus ∷ o.source ∷ bytes_of 4 o.gsi (bytes_of 2 o.flags rest)
encode_entry (ignored t payload) rest = t ∷ (length payload + 2) ∷ (payload ++ rest)

abbrev pub encode : List Entry → List ℕ
encode [] = []
encode (e ∷ es) = encode_entry e (encode es)

abbrev pub size_of : Entry → ℕ
size_of (io_apic a) = 12
size_of (override o) = 10
size_of (ignored t payload) = length payload + 2

Holds-append :
    (m : Ram) (p : ℕ) (xs ys : List ℕ) → Holds m p (xs ++ ys) → Holds m (p + length xs) ys
Holds-append m p [] ys h = let e : p + 0 ≡ p = omega arith in rw e h
Holds-append m p (x ∷ xs) ys h =
    let e : p + suc (length xs) ≡ p + 1 + length xs = omega arith in
    rw e (Holds-append m (p + 1) xs ys h.1)

-- A word that is laid out, and what lies behind it.
word16 :
    (m : Ram) (p v : ℕ) (rest : List ℕ)
    → v < 2 ^ 16
    → Holds m p (bytes_of 2 v rest)
    → (load16 m p ≡ v) × Holds m (p + 2) rest
word16 m p v rest small h =
    let e2 : p + 1 + 1 ≡ p + 2 = omega arith in (omega (arith, h.0, h.1.0), rw e2 at h.1.1)

word32 :
    (m : Ram) (p v : ℕ) (rest : List ℕ)
    → v < 2 ^ 32
    → Holds m p (bytes_of 4 v rest)
    → (load32 m p ≡ v) × Holds m (p + 4) rest
word32 m p v rest small h =
    let e2 : p + 1 + 1 ≡ p + 2 = omega arith in
    let e4 : p + 2 + 1 + 1 ≡ p + 4 = omega arith in
    let high = rw e2 at h.1.1 in (omega (arith, h.0, h.1.0, high.0, high.1.0), rw e4 at high.1.1)

length-encode_entry :
    (e : Entry) (rest : List ℕ) → length (encode_entry e rest) ≡ size_of e + length rest
length-encode_entry (io_apic a) rest = omega arith
length-encode_entry (override o) rest = omega arith
length-encode_entry (ignored t payload) rest = omega (arith, length-append payload rest)

size_of-pos : (e : Entry) → 0 < size_of e
size_of-pos (io_apic a) = omega arith
size_of-pos (override o) = omega arith
size_of-pos (ignored t payload) = omega arith

module _ {io : Ports} (texts : Texts) where
  -- What one entry means.
  abbrev pub note_entry : Entry → Acpi io → Acpi io
  note_entry (io_apic a) s =
      registered (described a.id 0x08 a.addr 0x100 (texts.ioapic_text a.id a.gsi_base))
        (record s { ioapics = s.ioapics ++ (a ∷ []) })
  note_entry (override o) s = record s { isos = s.isos ++ (o ∷ []) }
  note_entry (ignored t payload) s = s

  abbrev pub note_entries : List Entry → Acpi io → Acpi io
  note_entries [] s = s
  note_entries (e ∷ es) s = note_entries es (note_entry e s)

  parse_entry-io_apic :
      (m : Ram) (p : ℕ) (a : IoApicInfo) (rest : List ℕ) (s : Acpi io)
      → IsEntry (io_apic a)
      → Holds m p (encode_entry (io_apic a) rest)
      → (parse_entry texts m p s ≡ note_entry (io_apic a) s)
        × ((view_madt_entry_header m p).length ≡ 12)
        × Holds m (p + 12) rest
  unfolding parse_entry
  parse_entry-io_apic m p a rest s fits h =
      let e2 : p + 1 + 1 ≡ p + 2 = omega arith in
      let e4 : p + 2 + 1 + 1 ≡ p + 4 = omega arith in
      let e8 : p + 4 + 4 ≡ p + 8 = omega arith in
      let e12 : p + 8 + 4 ≡ p + 12 = omega arith in
      let body = rw e2 at h.1.1 in
      let addr = word32 m (p + 4) a.addr (bytes_of 4 a.gsi_base rest) fits.1 (rw e4 at body.1.1) in
      let gsi = word32 m (p + 8) a.gsi_base rest fits.2 (rw e8 at addr.1) in
      (rw (h.0, h.1.0, body.0, addr.0, gsi.0) refl, h.1.0, rw e12 at gsi.1)

  parse_entry-override :
      (m : Ram) (p : ℕ) (o : IsoInfo) (rest : List ℕ) (s : Acpi io)
      → IsEntry (override o)
      → Holds m p (encode_entry (override o) rest)
      → (parse_entry texts m p s ≡ note_entry (override o) s)
        × ((view_madt_entry_header m p).length ≡ 10)
        × Holds m (p + 10) rest
  unfolding parse_entry
  parse_entry-override m p o rest s fits h =
      let e2 : p + 1 + 1 ≡ p + 2 = omega arith in
      let e4 : p + 2 + 1 + 1 ≡ p + 4 = omega arith in
      let e8 : p + 4 + 4 ≡ p + 8 = omega arith in
      let e10 : p + 8 + 2 ≡ p + 10 = omega arith in
      let e3 : p + 2 + 1 ≡ p + 3 = omega arith in
      let body = rw e2 at h.1.1 in
      let source = rw e3 at body.1.0 in
      let gsi = word32 m (p + 4) o.gsi (bytes_of 2 o.flags rest) fits.2 (rw e4 at body.1.1) in
      let flags = word16 m (p + 8) o.flags rest fits.3 (rw e8 at gsi.1) in
      (rw (h.0, h.1.0, body.0, source, gsi.0, flags.0) refl, h.1.0, rw e10 at flags.1)

  parse_entry-ignored :
      (m : Ram) (p t : ℕ) (payload rest : List ℕ) (s : Acpi io)
      → IsEntry (ignored t payload)
      → Holds m p (encode_entry (ignored t payload) rest)
      → (parse_entry texts m p s ≡ s)
        × ((view_madt_entry_header m p).length ≡ length payload + 2)
        × Holds m (p + (length payload + 2)) rest
  unfolding parse_entry
  parse_entry-ignored m p t payload rest s fits h =
      let e : p + 1 + 1 + length payload ≡ p + (length payload + 2) = omega arith in
      let is1 : (m p == 1) ≡ false = ground (arith, h.0, fits.0) in
      let is2 : (m p == 2) ≡ false = ground (arith, h.0, fits.1) in
      (rw (is1, is2) refl, h.1.0, rw e at (Holds-append m (p + 1 + 1) payload rest h.1.1))

  parse_entry-note_entry :
      (m : Ram) (p : ℕ) (e : Entry) (rest : List ℕ) (s : Acpi io)
      → IsEntry e
      → Holds m p (encode_entry e rest)
      → (parse_entry texts m p s ≡ note_entry e s)
        × ((view_madt_entry_header m p).length ≡ size_of e)
        × Holds m (p + size_of e) rest
  parse_entry-note_entry m p (io_apic a) rest s fits h = parse_entry-io_apic m p a rest s fits h
  parse_entry-note_entry m p (override o) rest s fits h = parse_entry-override m p o rest s fits h
  parse_entry-note_entry m p (ignored t payload) rest s fits h =
      parse_entry-ignored m p t payload rest s fits h

  parse_entries-encode :
      (m : Ram) (table len fuel offset : ℕ) (es : List Entry) (s : Acpi io)
      → All IsEntry es
      → Holds m (table + offset) (encode es)
      → offset + length (encode es) ≡ len
      → len < offset + fuel
      → parse_entries texts m table len fuel offset s ≡ note_entries es s
  unfolding parse_entries
  parse_entries-encode m table len zero offset es s fits h e f = absurd (omega arith)
  parse_entries-encode m table len (suc fuel) offset [] s fits h e f =
      let past : ltb offset len ≡ false = ground arith in rw past refl
  parse_entries-encode m table len (suc fuel) offset (x ∷ es) s fits h e f =
      let one = parse_entry-note_entry m (table + offset) x (encode es) s fits.0 h in
      let size = length-encode_entry x (encode es) in
      let some_bytes = size_of-pos x in
      let ahead : ltb offset len ≡ true = ground (arith, size) in
      let some_size : (size_of x == 0) ≡ false = ground arith in
      let at : table + offset + size_of x ≡ table + (offset + size_of x) = omega arith in
      rw (one.0, ahead, one.1, some_size)
        (parse_entries-encode m table len fuel (offset + size_of x) es (note_entry x s) fits.1
          (rw at at one.2) (omega arith) (omega arith))

  -- A table with a valid checksum, whose entries behind the header are laid out one after the other
  -- up to its length, is read as those entries: the controllers and overrides are noted in their
  -- order, each controller is registered, and the others are skipped.
  pub parse_madt-encode :
      (m : Ram) (p : ℕ) (es : List Entry) (s : Acpi io)
      → p ≢ 0
      → checksum_valid m p ≡ true
      → All IsEntry es
      → Holds m (p + 44) (encode es)
      → (view_madt m p).header.length ≡ 44 + length (encode es)
      → parse_madt texts m p s
        ≡ note_entries es (record s { local_apic_addr = (view_madt m p).local_apic_addr })
  unfolding parse_madt
  parse_madt-encode m p es s there ok fits h len =
      let some_p : (p == 0) ≡ false = ground arith in
      rw (some_p, ok) (parse_entries-encode m p _ _ 44 es _ fits h (sym len) (omega arith))
