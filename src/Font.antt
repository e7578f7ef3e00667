-- ===== src/Font.antt =====
-- The 8x8 font of src/font.rs: one byte per glyph row, for the characters 0x20 to 0x7E.
use ventura_os.Base.{ℕ, ◌-◌, ◌&&◌, none, some, List, [], ◌∷◌, leb, if◌then◌else◌, get_elem?}

abbrev pub glyph_width : ℕ
glyph_width = 8

abbrev pub glyph_height : ℕ
glyph_height = 8

abbrev pub first_char : ℕ
first_char = 0x20

abbrev pub last_char : ℕ
last_char = 0x7E

abbrev row8 : ℕ → ℕ → ℕ → ℕ → ℕ → ℕ → ℕ → ℕ → List ℕ
row8 a b c d e f g h = a ∷ b ∷ c ∷ d ∷ e ∷ f ∷ g ∷ h ∷ []

unfoldable pub font : List (List ℕ)
font =
    row8 0x00 0x00 0x00 0x00 0x00 0x00 0x00 0x00
    ∷ row8 0x18 0x3C 0x3C 0x18 0x18 0x00 0x18 0x00
    ∷ row8 0x36 0x36 0x00 0x00 0x00 0x00 0x00 0x00
    ∷ row8 0x36 0x36 0x7F 0x36 0x7F 0x36 0x36 0x00
    ∷ row8 0x0C 0x3E 0x03 0x1E 0x30 0x1F 0x0C 0x00
    ∷ row8 0x00 0x63 0x33 0x18 0x0C 0x66 0x63 0x00
    ∷ row8 0x1C 0x36 0x1C 0x6E 0x3B 0x33 0x6E 0x00
    ∷ row8 0x06 0x06 0x03 0x00 0x00 0x00 0x00 0x00
    ∷ row8 0x18 0x0C 0x06 0x06 0x06 0x0C 0x18 0x00
    ∷ row8 0x06 0x0C 0x18 0x18 0x18 0x0C 0x06 0x00
    ∷ row8 0x00 0x66 0x3C 0xFF 0x3C 0x66 0x00 0x00
    ∷ row8 0x00 0x0C 0x0C 0x3F 0x0C 0x0C 0x00 0x00
    ∷ row8 0x00 0x00 0x00 0x00 0x00 0x0C 0x0C 0x06
    ∷ row8 0x00 0x00 0x00 0x3F 0x00 0x00 0x00 0x00
    ∷ row8 0x00 0x00 0x00 0x00 0x00 0x0C 0x0C 0x00
    ∷ row8 0x60 0x30 0x18 0x0C 0x06 0x03 0x01 0x00
    ∷ row8 0x3E 0x63 0x73 0x7B 0x6F 0x67 0x3E 0x00
    ∷ row8 0x0C 0x0E 0x0C 0x0C 0x0C 0x0C 0x3F 0x00
    ∷ row8 0x1E 0x33 0x30 0x1C 0x06 0x33 0x3F 0x00
    ∷ row8 0x1E 0x33 0x30 0x1C 0x30 0x33 0x1E 0x00
    ∷ row8 0x38 0x3C 0x36 0x33 0x7F 0x30 0x78 0x00
    ∷ row8 0x3F 0x03 0x1F 0x30 0x30 0x33 0x1E 0x00
    ∷ row8 0x1C 0x06 0x03 0x1F 0x33 0x33 0x1E 0x00
    ∷ row8 0x3F 0x33 0x30 0x18 0x0C 0x0C 0x0C 0x00
    ∷ row8 0x1E 0x33 0x33 0x1E 0x33 0x33 0x1E 0x00
    ∷ row8 0x1E 0x33 0x33 0x3E 0x30 0x18 0x0E 0x00
    ∷ row8 0x00 0x0C 0x0C 0x00 0x00 0x0C 0x0C 0x00
    ∷ row8 0x00 0x0C 0x0C 0x00 0x00 0x0C 0x0C 0x06
    ∷ row8 0x18 0x0C 0x06 0x03 0x06 0x0C 0x18 0x00
    ∷ row8 0x00 0x00 0x3F 0x00 0x00 0x3F 0x00 0x00
    ∷ row8 0x06 0x0C 0x18 0x30 0x18 0x0C 0x06 0x00
    ∷ row8 0x1E 0x33 0x30 0x18 0x0C 0x00 0x0C 0x00
    ∷ row8 0x3E 0x63 0x7B 0x7B 0x7B 0x03 0x1E 0x00
    ∷ row8 0x0C 0x1E 0x33 0x33 0x3F 0x33 0x33 0x00
    ∷ row8 0x3F 0x66 0x66 0x3E 0x66 0x66 0x3F 0x00
    ∷ row8 0x3C 0x66 0x03 0x03 0x03 0x66 0x3C 0x00
    ∷ row8 0x1F 0x36 0x66 0x66 0x66 0x36 0x1F 0x00
    ∷ row8 0x7F 0x46 0x16 0x1E 0x16 0x46 0x7F 0x00
    ∷ row8 0x7F 0x46 0x16 0x1E 0x16 0x06 0x0F 0x00
    ∷ row8 0x3C 0x66 0x03 0x03 0x73 0x66 0x7C 0x00
    ∷ row8 0x33 0x33 0x33 0x3F 0x33 0x33 0x33 0x00
    ∷ row8 0x1E 0x0C 0x0C 0x0C 0x0C 0x0C 0x1E 0x00
    ∷ row8 0x78 0x30 0x30 0x30 0x33 0x33 0x1E 0x00
    ∷ row8 0x67 0x66 0x36 0x1E 0x36 0x66 0x67 0x00
    ∷ row8 0x0F 0x06 0x06 0x06 0x46 0x66 0x7F 0x00
    ∷ row8 0x63 0x77 0x7F 0x7F 0x6B 0x63 0x63 0x00
    ∷ row8 0x63 0x67 0x6F 0x7B 0x73 0x63 0x63 0x00
    ∷ row8 0x1C 0x36 0x63 0x63 0x63 0x36 0x1C 0x00
    ∷ row8 0x3F 0x66 0x66 0x3E 0x06 0x06 0x0F 0x00
    ∷ row8 0x1E 0x33 0x33 0x33 0x3B 0x1E 0x38 0x00
    ∷ row8 0x3F 0x66 0x66 0x3E 0x36 0x66 0x67 0x00
    ∷ row8 0x1E 0x33 0x07 0x0E 0x38 0x33 0x1E 0x00
    ∷ row8 0x3F 0x2D 0x0C 0x0C 0x0C 0x0C 0x1E 0x00
    ∷ row8 0x33 0x33 0x33 0x33 0x33 0x33 0x3F 0x00
    ∷ row8 0x33 0x33 0x33 0x33 0x33 0x1E 0x0C 0x00
    ∷ row8 0x63 0x63 0x63 0x6B 0x7F 0x77 0x63 0x00
    ∷ row8 0x63 0x63 0x36 0x1C 0x1C 0x36 0x63 0x00
    ∷ row8 0x33 0x33 0x33 0x1E 0x0C 0x0C 0x1E 0x00
    ∷ row8 0x7F 0x63 0x31 0x18 0x4C 0x66 0x7F 0x00
    ∷ row8 0x1E 0x06 0x06 0x06 0x06 0x06 0x1E 0x00
    ∷ row8 0x03 0x06 0x0C 0x18 0x30 0x60 0x40 0x00
    ∷ row8 0x1E 0x18 0x18 0x18 0x18 0x18 0x1E 0x00
    ∷ row8 0x08 0x1C 0x36 0x63 0x00 0x00 0x00 0x00
    ∷ row8 0x00 0x00 0x00 0x00 0x00 0x00 0x00 0xFF
    ∷ row8 0x0C 0x0C 0x18 0x00 0x00 0x00 0x00 0x00
    ∷ row8 0x00 0x00 0x1E 0x30 0x3E 0x33 0x6E 0x00
    ∷ row8 0x07 0x06 0x06 0x3E 0x66 0x66 0x3B 0x00
    ∷ row8 0x00 0x00 0x1E 0x33 0x03 0x33 0x1E 0x00
    ∷ row8 0x38 0x30 0x30 0x3E 0x33 0x33 0x6E 0x00
    ∷ row8 0x00 0x00 0x1E 0x33 0x3F 0x03 0x1E 0x00
    ∷ row8 0x1C 0x36 0x06 0x0F 0x06 0x06 0x0F 0x00
    ∷ row8 0x00 0x00 0x6E 0x33 0x33 0x3E 0x30 0x1F
    ∷ row8 0x07 0x06 0x36 0x6E 0x66 0x66 0x67 0x00
    ∷ row8 0x0C 0x00 0x0E 0x0C 0x0C 0x0C 0x1E 0x00
    ∷ row8 0x30 0x00 0x30 0x30 0x30 0x33 0x33 0x1E
    ∷ row8 0x07 0x06 0x66 0x36 0x1E 0x36 0x67 0x00
    ∷ row8 0x0E 0x0C 0x0C 0x0C 0x0C 0x0C 0x1E 0x00
    ∷ row8 0x00 0x00 0x33 0x7F 0x7F 0x6B 0x63 0x00
    ∷ row8 0x00 0x00 0x1F 0x33 0x33 0x33 0x33 0x00
    ∷ row8 0x00 0x00 0x1E 0x33 0x33 0x33 0x1E 0x00
    ∷ row8 0x00 0x00 0x3B 0x66 0x66 0x3E 0x06 0x0F
    ∷ row8 0x00 0x00 0x6E 0x33 0x33 0x3E 0x30 0x78
    ∷ row8 0x00 0x00 0x3B 0x6E 0x66 0x06 0x0F 0x00
    ∷ row8 0x00 0x00 0x3E 0x03 0x1E 0x30 0x1F 0x00
    ∷ row8 0x08 0x0C 0x3E 0x0C 0x0C 0x2C 0x18 0x00
    ∷ row8 0x00 0x00 0x33 0x33 0x33 0x33 0x6E 0x00
    ∷ row8 0x00 0x00 0x33 0x33 0x33 0x1E 0x0C 0x00
    ∷ row8 0x00 0x00 0x63 0x6B 0x7F 0x7F 0x36 0x00
    ∷ row8 0x00 0x00 0x63 0x36 0x1C 0x36 0x63 0x00
    ∷ row8 0x00 0x00 0x33 0x33 0x33 0x3E 0x30 0x1F
    ∷ row8 0x00 0x00 0x3F 0x19 0x0C 0x26 0x3F 0x00
    ∷ row8 0x38 0x0C 0x0C 0x07 0x0C 0x0C 0x38 0x00
    ∷ row8 0x18 0x18 0x18 0x00 0x18 0x18 0x18 0x00
    ∷ row8 0x07 0x0C 0x0C 0x38 0x0C 0x0C 0x07 0x00
    ∷ row8 0x6E 0x3B 0x00 0x00 0x00 0x00 0x00 0x00
    ∷ []

abbrev pub glyph_index : ℕ → ℕ
glyph_index byte =
    if leb first_char byte && leb byte last_char then byte - first_char else 0x3F - first_char

unfoldable pub glyph : ℕ → List ℕ
unfolding font
glyph byte = elim (get_elem? font (glyph_index byte)) [ some g ↦ g | none ↦ [] ]
