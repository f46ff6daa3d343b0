-- ===== src/Devices/Pci/Chain.antt =====
-- src/devices/pci.rs: what the capability list of a function is read as.
use neutrix.Base.{
  ℕ, zero, suc, ◌+◌, ◌/◌, ◌%◌, ◌^◌, ◌≤◌, ◌≡◌, refl, sym, ap, ◌∙◌, inl, inr, false, Bool-cases, not,
  List, [], ◌∷◌, ◌++◌, ◌==◌, if◌then◌else◌, length, u8, arith,
}
use mathlib.Core.List.{append_assoc, append-nil}
use neutrix.Arch.Machine.{Machine}
use neutrix.DriverFramework.Device.{Capability, power_management, pci_express, other}
use neutrix.Devices.Pci.{pci_read}
use neutrix.Devices.Pci.Caps.{
  Walk, Place, word_at, parse_power_management, parse_msi, parse_pci_express, parse_msix,
  parse_other, parse_cap, walk_caps, read_capabilities,
}

-- The pointers of a list that starts at `p` and ends with a null pointer; `word` is what the
-- registers hold.
abbrev pub Chain : (word : ℕ → ℕ) → ℕ → List ℕ → Type 0
Chain word p [] = p ≡ 0
Chain word p (q ∷ qs) = (p ≡ q) × ((q == 0) ≡ false) × Chain word (word q / 2 ^ 8 % 256) qs

-- What stands at a pointer. Messages are resources, no capabilities.
abbrev pub listed_at : (word : ℕ → ℕ) → ℕ → List Capability
listed_at word q =
    let id = word q % 256 in
    if id == 0x01
    then power_management (word q / 2 ^ 16 % 2 ^ 16) (word_at (word (u8 (q + 4))) (q + 4)) ∷ []
    else (if id == 0x05
        then []
        else (if id == 0x10
            then pci_express (word q) (word (u8 (q + 4))) ∷ []
            else (if id == 0x11 then [] else other id (word q) (word (u8 (q + 4))) ∷ [])))

abbrev pub listed : (word : ℕ → ℕ) → List ℕ → List Capability
listed word [] = []
listed word (q ∷ qs) = listed_at word q ++ listed word qs

module _ (mc : Machine) (at : Place) (word : ℕ → ℕ)
    (reads : (h : mc.ports.Hardware) (off : ℕ)
      → (pci_read mc at.bus at.slot at.func off h).0 ≡ word off) where
  parse_cap-listed :
      (q : ℕ) (s : Walk mc)
      → (parse_cap mc at q (word q) s).capabilities ≡ s.capabilities ++ listed_at word q
  unfolding parse_cap parse_power_management parse_msi parse_pci_express parse_msix parse_other
  parse_cap-listed q s = elim (Bool-cases (word q % 256 == 0x01)) [
    | inl pm ↦ rw pm (rw (reads s.hardware (u8 (q + 4))) refl)
    | inr a ↦ rw a (elim (Bool-cases (word q % 256 == 0x05)) [
      | inl msi ↦ rw msi (sym (append-nil s.capabilities))
      | inr b ↦ rw b (elim (Bool-cases (word q % 256 == 0x10)) [
        | inl pcie ↦ rw pcie (
            rw
              (
                reads s.hardware q,
                reads (pci_read mc at.bus at.slot at.func q s.hardware).1 (u8 (q + 4)),
              )
              refl)
        | inr c ↦ rw c (elim (Bool-cases (word q % 256 == 0x11)) [
          | inl msix ↦ rw msix (sym (append-nil s.capabilities))
          | inr d ↦ rw d (
              rw
                (
                  reads s.hardware q,
                  reads (pci_read mc at.bus at.slot at.func q s.hardware).1 (u8 (q + 4)),
                )
                refl)
        ])
      ])
    ])
  ]

  -- A round at a pointer, with the hardware after its word is read.
  walk_caps_round :
      (n q : ℕ) (s : Walk mc)
      → (q == 0) ≡ false
      → walk_caps mc at (suc n) q s
        ≡ walk_caps mc at n (word q / 2 ^ 8 % 256) (
            parse_cap mc at q
              (word q)
              (record s { hardware = (pci_read mc at.bus at.slot at.func q s.hardware).1 }))
  unfolding walk_caps
  walk_caps_round n q s some_pointer =
      let (w, h) = pci_read mc at.bus at.slot at.func q s.hardware in
      let rest : ℕ → Walk mc = λ w.
        walk_caps mc at n (w / 2 ^ 8 % 256) (parse_cap mc at q w (record s { hardware = h })) in
      ap (λ b. if b then s else rest w) some_pointer ∙ ap rest (reads s.hardware q)

  walk_caps-null : (n : ℕ) (s : Walk mc) → walk_caps mc at n 0 s ≡ s
  unfolding walk_caps
  walk_caps-null zero s = refl
  walk_caps-null (suc n) s = refl

  walk_caps-listed :
      (n p : ℕ) (qs : List ℕ) (s : Walk mc)
      → length qs ≤ n
      → Chain word p qs
      → (walk_caps mc at n p s).capabilities ≡ s.capabilities ++ listed word qs
  walk_caps-listed n p [] s l e =
      ap (λ p. (walk_caps mc at n p s).capabilities) e
      ∙ ap (λ (t : Walk mc). t.capabilities) (walk_caps-null n s)
      ∙ sym (append-nil s.capabilities)
  walk_caps-listed zero p (q ∷ qs) s l chain = absurd (omega arith)
  walk_caps-listed (suc n) p (q ∷ qs) s l (same, some_pointer, chain) =
      let s1 = record s { hardware = (pci_read mc at.bus at.slot at.func q s.hardware).1 } in
      ap (λ p. (walk_caps mc at (suc n) p s).capabilities) same
      ∙ ap (λ (t : Walk mc). t.capabilities) (walk_caps_round n q s some_pointer)
      ∙ walk_caps-listed n (word q / 2 ^ 8 % 256) qs (parse_cap mc at q (word q) s1) (omega arith)
          chain
      ∙ ap (λ t. t ++ listed word qs) (parse_cap-listed q s1)
      ∙ append_assoc s.capabilities (listed_at word q) (listed word qs)

  -- If the registers keep their values and the status register says that there is a list, and its
  -- pointers are null-terminated and 48 at most, then `read_capabilities` adds what stands at each
  -- of them, once and in their order.
  pub read_capabilities-listed :
      (qs : List ℕ) (s : Walk mc)
      → length qs ≤ 48
      → (word 0x04 / 2 ^ 16 / 2 ^ 4 % 2 == 0) ≡ false
      → Chain word (word 0x34 % 256) qs
      → (read_capabilities mc at s).capabilities ≡ s.capabilities ++ listed word qs
  unfolding read_capabilities
  read_capabilities-listed qs s l has_list chain =
      let (status, h1) = pci_read mc at.bus at.slot at.func 0x04 s.hardware in
      let (first, h2) = pci_read mc at.bus at.slot at.func 0x34 h1 in
      let walk : ℕ → Walk mc = λ p. walk_caps mc at 48 (p % 256) (record s { hardware = h2 }) in
      ap
        (λ w.
          (if not (w / 2 ^ 16 / 2 ^ 4 % 2 == 0)
            then walk first
            else record s { hardware = h1 }).capabilities)
        (reads s.hardware 0x04)
      ∙ ap (λ b. (if not b then walk first else record s { hardware = h1 }).capabilities) has_list
      ∙ ap (λ p. (walk p).capabilities) (reads h1 0x34)
      ∙ walk_caps-listed 48 (word 0x34 % 256) qs (record s { hardware = h2 }) l chain
