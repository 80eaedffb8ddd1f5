-- ===== src/Ssd1306/Font.antt =====
-- firmware/main/drivers/ic/ssd1306.c: the font, and the glyphs of a text.
use fortunelabs_mainboard_l.Prelude.{
  ℕ, zero, suc, ◌+◌, ◌-◌, ◌*◌, ◌&&◌, List, [], ◌∷◌, ◌++◌, if◌then◌else◌, ◌==◌, ltb, leb, replicate,
}

-- The number of entries of `font_8x8`: its last designator is `'Y' - 0x20`.
abbrev pub font_entries : ℕ
font_entries = b'Y' - 0x20 + 1

-- The entries that `font_8x8` names, by their character; every other entry is zero.
abbrev pub glyph_table : List (ℕ × List ℕ)
glyph_table =
    (b'!' - 0x20, 0x00 ∷ 0x00 ∷ 0x5f ∷ 0x00 ∷ 0x00 ∷ 0x00 ∷ 0x00 ∷ 0x00 ∷ [])
    ∷ (b'0' - 0x20, 0x3e ∷ 0x51 ∷ 0x49 ∷ 0x45 ∷ 0x3e ∷ 0x00 ∷ 0x00 ∷ 0x00 ∷ [])
    ∷ (b'1' - 0x20, 0x00 ∷ 0x42 ∷ 0x7f ∷ 0x40 ∷ 0x00 ∷ 0x00 ∷ 0x00 ∷ 0x00 ∷ [])
    ∷ (b'2' - 0x20, 0x42 ∷ 0x61 ∷ 0x51 ∷ 0x49 ∷ 0x46 ∷ 0x00 ∷ 0x00 ∷ 0x00 ∷ [])
    ∷ (b'3' - 0x20, 0x21 ∷ 0x41 ∷ 0x45 ∷ 0x4b ∷ 0x31 ∷ 0x00 ∷ 0x00 ∷ 0x00 ∷ [])
    ∷ (b'4' - 0x20, 0x18 ∷ 0x14 ∷ 0x12 ∷ 0x7f ∷ 0x10 ∷ 0x00 ∷ 0x00 ∷ 0x00 ∷ [])
    ∷ (b'5' - 0x20, 0x27 ∷ 0x45 ∷ 0x45 ∷ 0x45 ∷ 0x39 ∷ 0x00 ∷ 0x00 ∷ 0x00 ∷ [])
    ∷ (b'A' - 0x20, 0x7c ∷ 0x12 ∷ 0x11 ∷ 0x12 ∷ 0x7c ∷ 0x00 ∷ 0x00 ∷ 0x00 ∷ [])
    ∷ (b'B' - 0x20, 0x7f ∷ 0x49 ∷ 0x49 ∷ 0x49 ∷ 0x36 ∷ 0x00 ∷ 0x00 ∷ 0x00 ∷ [])
    ∷ (b'C' - 0x20, 0x3e ∷ 0x41 ∷ 0x41 ∷ 0x41 ∷ 0x22 ∷ 0x00 ∷ 0x00 ∷ 0x00 ∷ [])
    ∷ (b'D' - 0x20, 0x7f ∷ 0x41 ∷ 0x41 ∷ 0x41 ∷ 0x3e ∷ 0x00 ∷ 0x00 ∷ 0x00 ∷ [])
    ∷ (b'E' - 0x20, 0x7f ∷ 0x49 ∷ 0x49 ∷ 0x49 ∷ 0x41 ∷ 0x00 ∷ 0x00 ∷ 0x00 ∷ [])
    ∷ (b'H' - 0x20, 0x7f ∷ 0x08 ∷ 0x08 ∷ 0x08 ∷ 0x7f ∷ 0x00 ∷ 0x00 ∷ 0x00 ∷ [])
    ∷ (b'K' - 0x20, 0x7f ∷ 0x08 ∷ 0x14 ∷ 0x22 ∷ 0x41 ∷ 0x00 ∷ 0x00 ∷ 0x00 ∷ [])
    ∷ (b'M' - 0x20, 0x7f ∷ 0x02 ∷ 0x0c ∷ 0x02 ∷ 0x7f ∷ 0x00 ∷ 0x00 ∷ 0x00 ∷ [])
    ∷ (b'O' - 0x20, 0x3e ∷ 0x41 ∷ 0x41 ∷ 0x41 ∷ 0x3e ∷ 0x00 ∷ 0x00 ∷ 0x00 ∷ [])
    ∷ (b'P' - 0x20, 0x7f ∷ 0x09 ∷ 0x09 ∷ 0x09 ∷ 0x06 ∷ 0x00 ∷ 0x00 ∷ 0x00 ∷ [])
    ∷ (b'R' - 0x20, 0x7f ∷ 0x09 ∷ 0x19 ∷ 0x29 ∷ 0x46 ∷ 0x00 ∷ 0x00 ∷ 0x00 ∷ [])
    ∷ (b'S' - 0x20, 0x46 ∷ 0x49 ∷ 0x49 ∷ 0x49 ∷ 0x31 ∷ 0x00 ∷ 0x00 ∷ 0x00 ∷ [])
    ∷ (b'T' - 0x20, 0x01 ∷ 0x01 ∷ 0x7f ∷ 0x01 ∷ 0x01 ∷ 0x00 ∷ 0x00 ∷ 0x00 ∷ [])
    ∷ (b'V' - 0x20, 0x1f ∷ 0x20 ∷ 0x40 ∷ 0x20 ∷ 0x1f ∷ 0x00 ∷ 0x00 ∷ 0x00 ∷ [])
    ∷ (b'W' - 0x20, 0x3f ∷ 0x40 ∷ 0x38 ∷ 0x40 ∷ 0x3f ∷ 0x00 ∷ 0x00 ∷ 0x00 ∷ [])
    ∷ (b'Y' - 0x20, 0x03 ∷ 0x04 ∷ 0x78 ∷ 0x04 ∷ 0x03 ∷ 0x00 ∷ 0x00 ∷ 0x00 ∷ [])
    ∷ []

abbrev pub glyph_in : List (ℕ × List ℕ) → ℕ → List ℕ
glyph_in [] i = replicate 8 0
glyph_in ((j, bits) ∷ more) i = if j == i then bits else glyph_in more i

-- The index of a character: `ch - 0x20` from 0x20 to 0x5F, else 0.
unfoldable pub font_index : ℕ → ℕ
font_index ch = if leb 0x20 ch && leb ch 0x5F then ch - 0x20 else 0

-- Eight bytes of memory.
abbrev pub memory_row : (ℕ → ℕ) → ℕ → List ℕ
memory_row m i =
    m i ∷ m (i + 1) ∷ m (i + 2) ∷ m (i + 3) ∷ m (i + 4) ∷ m (i + 5) ∷ m (i + 6) ∷ m (i + 7) ∷ []

-- `font_8x8[i]`, where `beyond` gives the bytes that stand in memory after the table.
unfoldable pub font_8x8 : (ℕ → ℕ) → ℕ → List ℕ
font_8x8 beyond i =
    if ltb i font_entries
    then glyph_in glyph_table i
    else memory_row beyond (8 * (i - font_entries))

-- The loop of `ssd1306_show_text_hw` over the characters of a row; a text that is too short is
-- followed by spaces.
unfoldable pub glyphs : (ℕ → ℕ) → ℕ → List ℕ → List ℕ
glyphs beyond zero text = []
glyphs beyond (suc n) [] = font_8x8 beyond 0 ++ glyphs beyond n []
glyphs beyond (suc n) (ch ∷ text) = font_8x8 beyond (font_index ch) ++ glyphs beyond n text
