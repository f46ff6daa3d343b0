-- ===== src/DriverFramework/Drivers/Ps2Mouse/Packets.antt =====
-- src/driver_framework/drivers/ps2mouse.rs: the handler's packets against a description of the
-- stream as a whole.
use neutrix.Base.{
  ℕ, ◌≡◌, refl, ◌∙◌, sym, ap, inl, inr, true, false, Option, none, some, List, [], ◌∷◌,
  if◌then◌else◌, bit, Bool-cases, arith,
}
use neutrix.DriverFramework.Drivers.Ps2Mouse.{MousePacket, PacketState, as_i8, on_byte, on_bytes}

-- The packets of a stream: bytes that cannot start a packet are skipped, one that can takes the
-- two bytes behind it, whatever they are, and a packet that is cut off is none.
unfoldable pub packets : List ℕ → List MousePacket
packets (b ∷ x ∷ y ∷ bs) =
    let whole = packets bs in
    let skipped = packets (x ∷ y ∷ bs) in
    if bit b 3 then record { buttons = b; dx = as_i8 x; dy = as_i8 y } ∷ whole else skipped
packets _ = []

abbrev in_state : ℕ → ℕ → ℕ → ℕ → PacketState
in_state n b0 b1 b2 = record { pkt_state = n; buf0 = b0; buf1 = b1; buf2 = b2 }

on_byte_start :
    (b0 b1 b2 b : ℕ) → bit b 3 ≡ true → on_byte (in_state 0 b0 b1 b2) b ≡ (in_state 1 b b1 b2, none)
unfolding on_byte
on_byte_start b0 b1 b2 b h = ground (arith, h)

on_byte_skip :
    (b0 b1 b2 b : ℕ)
    → bit b 3 ≡ false
    → on_byte (in_state 0 b0 b1 b2) b ≡ (in_state 0 b0 b1 b2, none)
unfolding on_byte
on_byte_skip b0 b1 b2 b h = ground (arith, h)

packets-cons_skip : (b : ℕ) (bs : List ℕ) → bit b 3 ≡ false → packets (b ∷ bs) ≡ packets bs
unfolding packets
packets-cons_skip b [] h = refl
packets-cons_skip b (x ∷ []) h = refl
packets-cons_skip b (x ∷ y ∷ bs) h = ground (arith, h)

packets-cons_start :
    (b x y : ℕ) (bs : List ℕ)
    → bit b 3 ≡ true
    → packets (b ∷ x ∷ y ∷ bs) ≡ record { buttons = b; dx = as_i8 x; dy = as_i8 y } ∷ packets bs
unfolding packets
packets-cons_start b x y bs h = ground (arith, h)

abbrev after : List ℕ → PacketState × Option MousePacket → List MousePacket
after bs r = let (s, more) = on_bytes r.0 bs in elim r.1 [ none ↦ more | some p ↦ p ∷ more ]

on_bytes-cons_start :
    (b0 b1 b2 b : ℕ) (bs : List ℕ)
    → bit b 3 ≡ true
    → (on_bytes (in_state 0 b0 b1 b2) (b ∷ bs)).1 ≡ (on_bytes (in_state 1 b b1 b2) bs).1
unfolding on_bytes
on_bytes-cons_start b0 b1 b2 b bs h = ap (after bs) (on_byte_start b0 b1 b2 b h)

on_bytes-cons_skip :
    (b0 b1 b2 b : ℕ) (bs : List ℕ)
    → bit b 3 ≡ false
    → (on_bytes (in_state 0 b0 b1 b2) (b ∷ bs)).1 ≡ (on_bytes (in_state 0 b0 b1 b2) bs).1
unfolding on_bytes
on_bytes-cons_skip b0 b1 b2 b bs h = ap (after bs) (on_byte_skip b0 b1 b2 b h)

-- In state 0 the packets that the handler offers to the queue are those of the stream, whatever
-- the buffer holds.
pub on_bytes-eq-packets :
    (b0 b1 b2 : ℕ) (bs : List ℕ) → (on_bytes (in_state 0 b0 b1 b2) bs).1 ≡ packets bs
unfolding on_bytes on_byte packets
on_bytes-eq-packets b0 b1 b2 [] = refl
on_bytes-eq-packets b0 b1 b2 (b ∷ []) = elim (Bool-cases (bit b 3)) [
  | inl start ↦ on_bytes-cons_start b0 b1 b2 b [] start
  | inr skip ↦ on_bytes-cons_skip b0 b1 b2 b [] skip
]
on_bytes-eq-packets b0 b1 b2 (b ∷ x ∷ []) = elim (Bool-cases (bit b 3)) [
  | inl start ↦ on_bytes-cons_start b0 b1 b2 b (x ∷ []) start
  | inr skip ↦ on_bytes-cons_skip b0 b1 b2 b (x ∷ []) skip ∙ on_bytes-eq-packets b0 b1 b2 (x ∷ [])
]
on_bytes-eq-packets b0 b1 b2 (b ∷ x ∷ y ∷ bs) = elim (Bool-cases (bit b 3)) [
  | inl start ↦
      on_bytes-cons_start b0 b1 b2 b (x ∷ y ∷ bs) start
      ∙ ap (λ ps. record { buttons = b; dx = as_i8 x; dy = as_i8 y } ∷ ps)
          (on_bytes-eq-packets b x y bs)
      ∙ sym (packets-cons_start b x y bs start)
  | inr skip ↦
      on_bytes-cons_skip b0 b1 b2 b (x ∷ y ∷ bs) skip
      ∙ on_bytes-eq-packets b0 b1 b2 (x ∷ y ∷ bs)
      ∙ sym (packets-cons_skip b (x ∷ y ∷ bs) skip)
]
