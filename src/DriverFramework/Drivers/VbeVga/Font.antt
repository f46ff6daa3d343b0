-- ===== src/DriverFramework/Drivers/VbeVga/Font.antt =====
-- src/driver_framework/drivers/vbe_vga.rs: the font, eight rows for each character from 0x20 on,
-- the left pixel in the highest bit.
use neutrix.Base.{ℕ, List, [], ◌∷◌}

abbrev glyph : ℕ → ℕ → ℕ → ℕ → ℕ → ℕ → ℕ → ℕ → List ℕ
glyph a b c d e f g h = a ∷ b ∷ c ∷ d ∷ e ∷ f ∷ g ∷ h ∷ []

unfoldable pub font8x8 : List (List ℕ)
font8x8 =
    glyph 0x00 0x00 0x00 0x00 0x00 0x00 0x00 0x00
    ∷ glyph 0x18 0x3c 0x3c 0x18 0x18 0x00 0x18 0x00
    ∷ glyph 0x6c 0x6c 0x48 0x00 0x00 0x00 0x00 0x00
    ∷ glyph 0x6c 0x6c 0xfe 0x6c 0xfe 0x6c 0x6c 0x00
    ∷ glyph 0x18 0x3e 0x60 0x3c 0x06 0x7c 0x18 0x00
    ∷ glyph 0x00 0xc6 0xcc 0x18 0x30 0x66 0xc6 0x00
    ∷ glyph 0x38 0x6c 0x38 0x76 0xdc 0xcc 0x76 0x00
    ∷ glyph 0x30 0x30 0x60 0x00 0x00 0x00 0x00 0x00
    ∷ glyph 0x0c 0x18 0x30 0x30 0x30 0x18 0x0c 0x00
    ∷ glyph 0x30 0x18 0x0c 0x0c 0x0c 0x18 0x30 0x00
    ∷ glyph 0x00 0x66 0x3c 0xff 0x3c 0x66 0x00 0x00
    ∷ glyph 0x00 0x18 0x18 0x7e 0x18 0x18 0x00 0x00
    ∷ glyph 0x00 0x00 0x00 0x00 0x00 0x18 0x18 0x30
    ∷ glyph 0x00 0x00 0x00 0x7e 0x00 0x00 0x00 0x00
    ∷ glyph 0x00 0x00 0x00 0x00 0x00 0x18 0x18 0x00
    ∷ glyph 0x06 0x0c 0x18 0x30 0x60 0xc0 0x80 0x00
    ∷ glyph 0x7c 0xc6 0xce 0xd6 0xe6 0xc6 0x7c 0x00
    ∷ glyph 0x18 0x38 0x18 0x18 0x18 0x18 0x7e 0x00
    ∷ glyph 0x7c 0xc6 0x06 0x1c 0x30 0x66 0xfe 0x00
    ∷ glyph 0x7c 0xc6 0x06 0x3c 0x06 0xc6 0x7c 0x00
    ∷ glyph 0x0c 0x1c 0x3c 0x6c 0xfe 0x0c 0x1e 0x00
    ∷ glyph 0xfe 0xc0 0xc0 0xfc 0x06 0xc6 0x7c 0x00
    ∷ glyph 0x3c 0x60 0xc0 0xfc 0xc6 0xc6 0x7c 0x00
    ∷ glyph 0xfe 0xc6 0x0c 0x18 0x30 0x30 0x30 0x00
    ∷ glyph 0x7c 0xc6 0xc6 0x7c 0xc6 0xc6 0x7c 0x00
    ∷ glyph 0x7c 0xc6 0xc6 0x7e 0x06 0x0c 0x78 0x00
    ∷ glyph 0x00 0x18 0x18 0x00 0x00 0x18 0x18 0x00
    ∷ glyph 0x00 0x18 0x18 0x00 0x00 0x18 0x18 0x30
    ∷ glyph 0x0e 0x1c 0x38 0x70 0x38 0x1c 0x0e 0x00
    ∷ glyph 0x00 0x00 0x7e 0x00 0x00 0x7e 0x00 0x00
    ∷ glyph 0x70 0x38 0x1c 0x0e 0x1c 0x38 0x70 0x00
    ∷ glyph 0x7c 0xc6 0x0e 0x1c 0x18 0x00 0x18 0x00
    ∷ glyph 0x7c 0xc6 0xde 0xde 0xde 0xc0 0x78 0x00
    ∷ glyph 0x10 0x38 0x6c 0xc6 0xfe 0xc6 0xc6 0x00
    ∷ glyph 0xfc 0x66 0x66 0x7c 0x66 0x66 0xfc 0x00
    ∷ glyph 0x3c 0x66 0xc0 0xc0 0xc0 0x66 0x3c 0x00
    ∷ glyph 0xf8 0x6c 0x66 0x66 0x66 0x6c 0xf8 0x00
    ∷ glyph 0xfe 0x62 0x68 0x78 0x68 0x62 0xfe 0x00
    ∷ glyph 0xfe 0x62 0x68 0x78 0x68 0x60 0xf0 0x00
    ∷ glyph 0x3c 0x66 0xc0 0xc0 0xce 0x66 0x3c 0x00
    ∷ glyph 0xc6 0xc6 0xc6 0xfe 0xc6 0xc6 0xc6 0x00
    ∷ glyph 0x7e 0x18 0x18 0x18 0x18 0x18 0x7e 0x00
    ∷ glyph 0x1e 0x0c 0x0c 0x0c 0xcc 0xcc 0x78 0x00
    ∷ glyph 0xe6 0x66 0x6c 0x78 0x6c 0x66 0xe6 0x00
    ∷ glyph 0xf0 0x60 0x60 0x60 0x62 0x66 0xfe 0x00
    ∷ glyph 0xc6 0xee 0xfe 0xfe 0xd6 0xc6 0xc6 0x00
    ∷ glyph 0xc6 0xe6 0xf6 0xde 0xce 0xc6 0xc6 0x00
    ∷ glyph 0x7c 0xc6 0xc6 0xc6 0xc6 0xc6 0x7c 0x00
    ∷ glyph 0xfc 0x66 0x66 0x7c 0x60 0x60 0xf0 0x00
    ∷ glyph 0x7c 0xc6 0xc6 0xc6 0xd6 0xcc 0x7a 0x00
    ∷ glyph 0xfc 0x66 0x66 0x7c 0x6c 0x66 0xe6 0x00
    ∷ glyph 0x7c 0xc6 0xc0 0x7c 0x06 0xc6 0x7c 0x00
    ∷ glyph 0xff 0x99 0x18 0x18 0x18 0x18 0x3c 0x00
    ∷ glyph 0xc6 0xc6 0xc6 0xc6 0xc6 0xc6 0x7c 0x00
    ∷ glyph 0xc6 0xc6 0xc6 0xc6 0xc6 0x6c 0x38 0x00
    ∷ glyph 0xc6 0xc6 0xc6 0xd6 0xfe 0xee 0xc6 0x00
    ∷ glyph 0xc6 0x6c 0x38 0x10 0x38 0x6c 0xc6 0x00
    ∷ glyph 0xcc 0xcc 0x98 0x30 0x30 0x30 0x78 0x00
    ∷ glyph 0xfe 0xce 0x9c 0x38 0x70 0xe6 0xfe 0x00
    ∷ glyph 0x3c 0x30 0x30 0x30 0x30 0x30 0x3c 0x00
    ∷ glyph 0xc0 0x60 0x30 0x18 0x0c 0x06 0x02 0x00
    ∷ glyph 0x3c 0x0c 0x0c 0x0c 0x0c 0x0c 0x3c 0x00
    ∷ glyph 0x10 0x38 0x6c 0xc6 0x00 0x00 0x00 0x00
    ∷ glyph 0x00 0x00 0x00 0x00 0x00 0x00 0x00 0xff
    ∷ glyph 0x30 0x18 0x0c 0x00 0x00 0x00 0x00 0x00
    ∷ glyph 0x00 0x00 0x78 0x0c 0x7c 0xcc 0x76 0x00
    ∷ glyph 0xe0 0x60 0x7c 0x66 0x66 0x66 0xdc 0x00
    ∷ glyph 0x00 0x00 0x7c 0xc0 0xc0 0xc0 0x7c 0x00
    ∷ glyph 0x1c 0x0c 0x7c 0xcc 0xcc 0xcc 0x76 0x00
    ∷ glyph 0x00 0x00 0x7c 0xc6 0xfe 0xc0 0x7c 0x00
    ∷ glyph 0x3c 0x66 0x60 0xf8 0x60 0x60 0xf0 0x00
    ∷ glyph 0x00 0x00 0x76 0xcc 0xcc 0x7c 0x0c 0xf8
    ∷ glyph 0xe0 0x60 0x6c 0x76 0x66 0x66 0xe6 0x00
    ∷ glyph 0x18 0x00 0x38 0x18 0x18 0x18 0x3c 0x00
    ∷ glyph 0x0c 0x00 0x1c 0x0c 0x0c 0xcc 0xcc 0x78
    ∷ glyph 0xe0 0x60 0x66 0x6c 0x78 0x6c 0xe6 0x00
    ∷ glyph 0x38 0x18 0x18 0x18 0x18 0x18 0x3c 0x00
    ∷ glyph 0x00 0x00 0xec 0xfe 0xd6 0xd6 0xd6 0x00
    ∷ glyph 0x00 0x00 0xdc 0x66 0x66 0x66 0x66 0x00
    ∷ glyph 0x00 0x00 0x7c 0xc6 0xc6 0xc6 0x7c 0x00
    ∷ glyph 0x00 0x00 0xdc 0x66 0x66 0x7c 0x60 0xf0
    ∷ glyph 0x00 0x00 0x76 0xcc 0xcc 0x7c 0x0c 0x1e
    ∷ glyph 0x00 0x00 0xdc 0x76 0x60 0x60 0xf0 0x00
    ∷ glyph 0x00 0x00 0x7e 0xc0 0x7c 0x06 0xfc 0x00
    ∷ glyph 0x30 0x30 0xfc 0x30 0x30 0x36 0x1c 0x00
    ∷ glyph 0x00 0x00 0xcc 0xcc 0xcc 0xcc 0x76 0x00
    ∷ glyph 0x00 0x00 0xc6 0xc6 0xc6 0x6c 0x38 0x00
    ∷ glyph 0x00 0x00 0xc6 0xd6 0xd6 0xfe 0x6c 0x00
    ∷ glyph 0x00 0x00 0xc6 0x6c 0x38 0x6c 0xc6 0x00
    ∷ glyph 0x00 0x00 0xc6 0xc6 0xc6 0x7e 0x06 0xfc
    ∷ glyph 0x00 0x00 0xfe 0x8c 0x18 0x32 0xfe 0x00
    ∷ glyph 0x0e 0x18 0x18 0x70 0x18 0x18 0x0e 0x00
    ∷ glyph 0x18 0x18 0x18 0x00 0x18 0x18 0x18 0x00
    ∷ glyph 0x70 0x18 0x18 0x0e 0x18 0x18 0x70 0x00
    ∷ glyph 0x76 0xdc 0x00 0x00 0x00 0x00 0x00 0x00
    ∷ []
