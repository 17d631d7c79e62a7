-- ===== src/Drivers/Video/Font.antt =====
-- The glyphs of src/drivers/font.cpp and font.h.
use osito_k.Base.{ℕ, List, [], ◌∷◌}

abbrev pub font_w : ℕ
font_w = 4

abbrev pub font_h : ℕ
font_h = 6

abbrev pub font_first : ℕ
font_first = 32

abbrev pub font_last : ℕ
font_last = 126

-- The 95 glyphs behind each other, six rows each.
abbrev pub font_4x6 : List ℕ
font_4x6 =
    0 ∷ 0 ∷ 0 ∷ 0 ∷ 0 ∷ 0 ∷ 64 ∷ 64 ∷ 64 ∷ 0 ∷ 64 ∷ 0 ∷ 160 ∷ 160 ∷ 0 ∷ 0 ∷ 0 ∷ 0 ∷ 160 ∷ 240 ∷ 160
    ∷ 240 ∷ 160 ∷ 0 ∷ 96 ∷ 192 ∷ 96 ∷ 48 ∷ 96 ∷ 64 ∷ 144 ∷ 32 ∷ 64 ∷ 128 ∷ 144 ∷ 0 ∷ 64 ∷ 160 ∷ 64
    ∷ 160 ∷ 80 ∷ 0 ∷ 64 ∷ 64 ∷ 0 ∷ 0 ∷ 0 ∷ 0 ∷ 32 ∷ 64 ∷ 64 ∷ 64 ∷ 32 ∷ 0 ∷ 64 ∷ 32 ∷ 32 ∷ 32 ∷ 64
    ∷ 0 ∷ 0 ∷ 160 ∷ 64 ∷ 160 ∷ 0 ∷ 0 ∷ 0 ∷ 64 ∷ 224 ∷ 64 ∷ 0 ∷ 0 ∷ 0 ∷ 0 ∷ 0 ∷ 64 ∷ 128 ∷ 0 ∷ 0 ∷ 0
    ∷ 224 ∷ 0 ∷ 0 ∷ 0 ∷ 0 ∷ 0 ∷ 0 ∷ 0 ∷ 64 ∷ 0 ∷ 16 ∷ 32 ∷ 64 ∷ 128 ∷ 0 ∷ 0 ∷ 96 ∷ 176 ∷ 144 ∷ 208
    ∷ 96 ∷ 0 ∷ 64 ∷ 192 ∷ 64 ∷ 64 ∷ 224 ∷ 0 ∷ 96 ∷ 144 ∷ 32 ∷ 64 ∷ 240 ∷ 0 ∷ 224 ∷ 32 ∷ 96 ∷ 32
    ∷ 224 ∷ 0 ∷ 160 ∷ 160 ∷ 240 ∷ 32 ∷ 32 ∷ 0 ∷ 240 ∷ 128 ∷ 224 ∷ 16 ∷ 224 ∷ 0 ∷ 96 ∷ 128 ∷ 224
    ∷ 144 ∷ 96 ∷ 0 ∷ 240 ∷ 16 ∷ 32 ∷ 64 ∷ 64 ∷ 0 ∷ 96 ∷ 144 ∷ 96 ∷ 144 ∷ 96 ∷ 0 ∷ 96 ∷ 144 ∷ 112
    ∷ 16 ∷ 96 ∷ 0 ∷ 0 ∷ 64 ∷ 0 ∷ 64 ∷ 0 ∷ 0 ∷ 0 ∷ 64 ∷ 0 ∷ 64 ∷ 128 ∷ 0 ∷ 32 ∷ 64 ∷ 128 ∷ 64 ∷ 32
    ∷ 0 ∷ 0 ∷ 224 ∷ 0 ∷ 224 ∷ 0 ∷ 0 ∷ 128 ∷ 64 ∷ 32 ∷ 64 ∷ 128 ∷ 0 ∷ 96 ∷ 144 ∷ 32 ∷ 0 ∷ 32 ∷ 0 ∷ 96
    ∷ 144 ∷ 176 ∷ 128 ∷ 112 ∷ 0 ∷ 96 ∷ 144 ∷ 240 ∷ 144 ∷ 144 ∷ 0 ∷ 224 ∷ 144 ∷ 224 ∷ 144 ∷ 224 ∷ 0
    ∷ 96 ∷ 144 ∷ 128 ∷ 144 ∷ 96 ∷ 0 ∷ 224 ∷ 144 ∷ 144 ∷ 144 ∷ 224 ∷ 0 ∷ 240 ∷ 128 ∷ 224 ∷ 128 ∷ 240
    ∷ 0 ∷ 240 ∷ 128 ∷ 224 ∷ 128 ∷ 128 ∷ 0 ∷ 96 ∷ 128 ∷ 176 ∷ 144 ∷ 96 ∷ 0 ∷ 144 ∷ 144 ∷ 240 ∷ 144
    ∷ 144 ∷ 0 ∷ 224 ∷ 64 ∷ 64 ∷ 64 ∷ 224 ∷ 0 ∷ 16 ∷ 16 ∷ 16 ∷ 144 ∷ 96 ∷ 0 ∷ 144 ∷ 160 ∷ 192 ∷ 160
    ∷ 144 ∷ 0 ∷ 128 ∷ 128 ∷ 128 ∷ 128 ∷ 240 ∷ 0 ∷ 144 ∷ 240 ∷ 240 ∷ 144 ∷ 144 ∷ 0 ∷ 144 ∷ 208 ∷ 176
    ∷ 144 ∷ 144 ∷ 0 ∷ 96 ∷ 144 ∷ 144 ∷ 144 ∷ 96 ∷ 0 ∷ 224 ∷ 144 ∷ 224 ∷ 128 ∷ 128 ∷ 0 ∷ 96 ∷ 144
    ∷ 144 ∷ 160 ∷ 80 ∷ 0 ∷ 224 ∷ 144 ∷ 224 ∷ 160 ∷ 144 ∷ 0 ∷ 112 ∷ 128 ∷ 96 ∷ 16 ∷ 224 ∷ 0 ∷ 224
    ∷ 64 ∷ 64 ∷ 64 ∷ 64 ∷ 0 ∷ 144 ∷ 144 ∷ 144 ∷ 144 ∷ 96 ∷ 0 ∷ 144 ∷ 144 ∷ 144 ∷ 96 ∷ 96 ∷ 0 ∷ 144
    ∷ 144 ∷ 240 ∷ 240 ∷ 144 ∷ 0 ∷ 144 ∷ 144 ∷ 96 ∷ 144 ∷ 144 ∷ 0 ∷ 144 ∷ 144 ∷ 96 ∷ 64 ∷ 64 ∷ 0
    ∷ 240 ∷ 32 ∷ 64 ∷ 128 ∷ 240 ∷ 0 ∷ 96 ∷ 64 ∷ 64 ∷ 64 ∷ 96 ∷ 0 ∷ 128 ∷ 64 ∷ 32 ∷ 16 ∷ 0 ∷ 0 ∷ 96
    ∷ 32 ∷ 32 ∷ 32 ∷ 96 ∷ 0 ∷ 64 ∷ 160 ∷ 0 ∷ 0 ∷ 0 ∷ 0 ∷ 0 ∷ 0 ∷ 0 ∷ 0 ∷ 240 ∷ 0 ∷ 128 ∷ 64 ∷ 0 ∷ 0
    ∷ 0 ∷ 0 ∷ 0 ∷ 112 ∷ 144 ∷ 144 ∷ 112 ∷ 0 ∷ 128 ∷ 224 ∷ 144 ∷ 144 ∷ 224 ∷ 0 ∷ 0 ∷ 112 ∷ 128 ∷ 128
    ∷ 112 ∷ 0 ∷ 16 ∷ 112 ∷ 144 ∷ 144 ∷ 112 ∷ 0 ∷ 0 ∷ 96 ∷ 240 ∷ 128 ∷ 112 ∷ 0 ∷ 32 ∷ 64 ∷ 224 ∷ 64
    ∷ 64 ∷ 0 ∷ 0 ∷ 112 ∷ 144 ∷ 112 ∷ 16 ∷ 96 ∷ 128 ∷ 224 ∷ 144 ∷ 144 ∷ 144 ∷ 0 ∷ 64 ∷ 0 ∷ 64 ∷ 64
    ∷ 64 ∷ 0 ∷ 32 ∷ 0 ∷ 32 ∷ 32 ∷ 32 ∷ 192 ∷ 128 ∷ 144 ∷ 224 ∷ 160 ∷ 144 ∷ 0 ∷ 192 ∷ 64 ∷ 64 ∷ 64
    ∷ 224 ∷ 0 ∷ 0 ∷ 240 ∷ 240 ∷ 144 ∷ 144 ∷ 0 ∷ 0 ∷ 224 ∷ 144 ∷ 144 ∷ 144 ∷ 0 ∷ 0 ∷ 96 ∷ 144 ∷ 144
    ∷ 96 ∷ 0 ∷ 0 ∷ 224 ∷ 144 ∷ 224 ∷ 128 ∷ 128 ∷ 0 ∷ 112 ∷ 144 ∷ 112 ∷ 16 ∷ 16 ∷ 0 ∷ 160 ∷ 208 ∷ 128
    ∷ 128 ∷ 0 ∷ 0 ∷ 112 ∷ 192 ∷ 48 ∷ 224 ∷ 0 ∷ 64 ∷ 224 ∷ 64 ∷ 64 ∷ 32 ∷ 0 ∷ 0 ∷ 144 ∷ 144 ∷ 144
    ∷ 112 ∷ 0 ∷ 0 ∷ 144 ∷ 144 ∷ 96 ∷ 96 ∷ 0 ∷ 0 ∷ 144 ∷ 240 ∷ 240 ∷ 144 ∷ 0 ∷ 0 ∷ 144 ∷ 96 ∷ 96
    ∷ 144 ∷ 0 ∷ 0 ∷ 144 ∷ 144 ∷ 112 ∷ 16 ∷ 96 ∷ 0 ∷ 240 ∷ 32 ∷ 64 ∷ 240 ∷ 0 ∷ 32 ∷ 64 ∷ 192 ∷ 64
    ∷ 32 ∷ 0 ∷ 64 ∷ 64 ∷ 64 ∷ 64 ∷ 64 ∷ 0 ∷ 128 ∷ 64 ∷ 96 ∷ 64 ∷ 128 ∷ 0 ∷ 80 ∷ 160 ∷ 0 ∷ 0 ∷ 0 ∷ 0
    ∷ []
