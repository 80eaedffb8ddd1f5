-- ===== src/Ssd1306/Texts.antt =====
-- What the panel shows after `ssd1306_show_text_hw` and `ssd1306_clear_hw`.
use fortunelabs_mainboard_l.Prelude.{
  ℕ, zero, suc, ◌+◌, ◌-◌, ◌*◌, ◌/◌, ◌%◌, ◌<◌, ◌≡◌, refl, ◌∙◌, Bool, true, false, ◌&&◌, List, [],
  ◌∷◌, ◌++◌, if◌then◌else◌, ◌==◌, ltb, length, get_or, arith, Bool-cases, inl, inr,
}
use fortunelabs_mainboard_l.Ssd1306.Font.{
  font_entries, glyph_table, glyph_in, font_index, font_8x8, glyphs,
}

get_or-append :
    (xs ys : List ℕ) (k : ℕ)
    → get_or (xs ++ ys) k 0
      ≡ (if ltb k (length xs) then get_or xs k 0 else get_or ys (k - length xs) 0)
get_or-append [] ys k = ground arith
get_or-append (x ∷ xs) ys zero = ground arith
get_or-append (x ∷ xs) ys (suc k) = ground (arith, get_or-append xs ys k)

pub length-append : (xs ys : List ℕ) → length (xs ++ ys) ≡ length xs + length ys
length-append [] ys = omega arith
length-append (x ∷ xs) ys = omega (arith, length-append xs ys)

abbrev all_of_8 : List (ℕ × List ℕ) → Bool
all_of_8 [] = true
all_of_8 ((i, bits) ∷ more) = (length bits == 8) && all_of_8 more

length-glyph_in : (t : List (ℕ × List ℕ)) (i : ℕ) → all_of_8 t ≡ true → length (glyph_in t i) ≡ 8
length-glyph_in [] i h = refl
length-glyph_in ((j, bits) ∷ more) i h = ground (arith, h, length-glyph_in more i)

-- Every entry of the font has 8 bytes.
length-font_8x8 : (beyond : ℕ → ℕ) (i : ℕ) → length (font_8x8 beyond i) ≡ 8
unfolding font_8x8
length-font_8x8 beyond i = elim (Bool-cases (ltb i font_entries)) [
  | inl e ↦ rw e (length-glyph_in glyph_table i refl)
  | inr e ↦ rw e
]

-- The byte of a text at a column of its row, by the character that stands there.
abbrev pub text_byte : (ℕ → ℕ) → List ℕ → ℕ → ℕ
text_byte beyond text c = get_or (font_8x8 beyond (font_index (get_or text (c / 8) 0x20))) (c % 8) 0

pub length-glyphs : (beyond : ℕ → ℕ) (n : ℕ) (text : List ℕ) → length (glyphs beyond n text) ≡ 8 * n
unfolding glyphs
length-glyphs beyond zero text = refl
length-glyphs beyond (suc n) [] = omega (
  arith,
  length-append (font_8x8 beyond 0) (glyphs beyond n []),
  length-font_8x8 beyond 0,
  length-glyphs beyond n [],
)
length-glyphs beyond (suc n) (ch ∷ text) = omega (
  arith,
  length-append (font_8x8 beyond (font_index ch)) (glyphs beyond n text),
  length-font_8x8 beyond (font_index ch),
  length-glyphs beyond n text,
)

-- One character and the rest of a row.
glyph_step :
    (beyond : ℕ → ℕ) (i : ℕ) (rest : List ℕ) (c : ℕ)
    → get_or (font_8x8 beyond i ++ rest) c 0
      ≡ (if ltb c 8 then get_or (font_8x8 beyond i) c 0 else get_or rest (c - 8) 0)
glyph_step beyond i rest c =
    rw (← length-font_8x8 beyond i) (get_or-append (font_8x8 beyond i) rest c)

first_cell : (c : ℕ) → ltb c 8 ≡ true → (c / 8 ≡ 0) × (c % 8 ≡ c)
first_cell c e = ground (arith, e)

next_cell : (c : ℕ) → ltb c 8 ≡ false → c / 8 ≡ suc ((c - 8) / 8)
next_cell c e = ground (arith, e)

later_cell : (c : ℕ) → ltb c 8 ≡ false → (c - 8) % 8 ≡ c % 8
later_cell c e = ground (arith, e)

-- The loop over the characters of a row fills each of its bytes with what the font gives for the
-- character that stands at that column, or for a space where the text is too short.
pub glyphs-text_byte :
    (beyond : ℕ → ℕ) (n : ℕ) (text : List ℕ) (c : ℕ)
    → c < 8 * n
    → get_or (glyphs beyond n text) c 0 ≡ text_byte beyond text c
unfolding glyphs font_index
glyphs-text_byte beyond zero text c h = absurd (omega (arith, h))
glyphs-text_byte beyond (suc n) [] c h =
    let step = glyph_step beyond 0 (glyphs beyond n []) c in
    elim (Bool-cases (ltb c 8)) [
      | inl e ↦ step ∙ rw (e, (first_cell c e).1)
      | inr e ↦
          step
          ∙ rw e (glyphs-text_byte beyond n [] (c - 8) (ground (arith, e, h)) ∙ rw (later_cell c e))
    ]
glyphs-text_byte beyond (suc n) (ch ∷ text) c h =
    let step = glyph_step beyond (font_index ch) (glyphs beyond n text) c in
    elim (Bool-cases (ltb c 8)) [
      | inl e ↦ step ∙ rw (e, (first_cell c e).0, (first_cell c e).1)
      | inr e ↦
          step
          ∙ rw (e, next_cell c e)
              (glyphs-text_byte beyond n text (c - 8) (ground (arith, e, h)) ∙ rw (later_cell c e))
    ]
