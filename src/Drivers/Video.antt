-- ===== src/Drivers/Video.antt =====
-- The framebuffer: src/drivers/video.cpp and video.h. A coordinate is the bit pattern of its `int`,
-- below 2 ^ 32; sums and differences wrap round.
pub mod Font
pub mod Pixels
pub mod Points
pub mod Error
pub mod Loops
pub mod Line
mod Tests
use osito_k.Base.{
  ℕ, zero, suc, ◌+◌, ◌-◌, ◌*◌, ◌/◌, ◌%◌, ◌^◌, Bool, true, false, not, ◌&&◌, ◌||◌, List, [], ◌∷◌,
  ◌++◌, Array, update, element, ltb, leb, ◌==◌, if◌then◌else◌,
}
use osito_k.Drivers.Uart.{uart_write_raw}
use osito_k.Drivers.Video.Font.{font_w, font_h, font_first, font_last, font_4x6}

abbrev pub fb_width : ℕ
fb_width = 128

abbrev pub fb_height : ℕ
fb_height = 64

abbrev pub fb_stride : ℕ
fb_stride = 16

abbrev pub fb_size : ℕ
fb_size = 1024

abbrev pub int_add : ℕ → ℕ → ℕ
int_add a b = (a + b) % 2 ^ 32

abbrev pub int_sub : ℕ → ℕ → ℕ
int_sub a b = (a + (2 ^ 32 - b)) % 2 ^ 32

abbrev pub int_is_negative : ℕ → Bool
int_is_negative a = leb (2 ^ 31) a

unfoldable pub fb_clear : Array ℕ → Array ℕ
fb_clear fb i = if ltb i fb_size then 0 else fb i

-- `b | (1 << k)`
unfoldable pub set_bit : ℕ → ℕ → ℕ
set_bit b zero = 2 * (b / 2) + 1
set_bit b (suc k) = 2 * set_bit (b / 2) k + b % 2

-- `b & ~(1 << k)`
unfoldable pub clear_bit : ℕ → ℕ → ℕ
clear_bit b zero = 2 * (b / 2)
clear_bit b (suc k) = 2 * clear_bit (b / 2) k + b % 2

-- `b & (1 << k)`, as a condition
unfoldable pub has_bit : ℕ → ℕ → Bool
has_bit b zero = b % 2 == 1
has_bit b (suc k) = has_bit (b / 2) k

-- The mask `0x80 >> (x & 7)` is bit `7 - x % 8`.
unfoldable pub fb_set_pixel : Array ℕ → ℕ → ℕ → Array ℕ
fb_set_pixel fb x y =
    let i = y * fb_stride + x / 8 in
    if leb fb_width x || leb fb_height y then fb else update fb i (set_bit (fb i) (7 - x % 8))

unfoldable pub fb_clear_pixel : Array ℕ → ℕ → ℕ → Array ℕ
fb_clear_pixel fb x y =
    let i = y * fb_stride + x / 8 in
    if leb fb_width x || leb fb_height y then fb else update fb i (clear_bit (fb i) (7 - x % 8))

-- `n` rounds of the loop of a line. The arguments `dx`, `dy`, `sx` and `sy` do not change.
unfoldable pub shallow_loop : ℕ → ℕ → ℕ → ℕ → ℕ → ℕ → ℕ → ℕ → Array ℕ → Array ℕ
shallow_loop zero dx dy sx sy x0 y0 err fb = fb
shallow_loop (suc n) dx dy sx sy x0 y0 err fb =
    let less = int_sub err dy in
    let down = int_is_negative less in
    shallow_loop n dx dy sx sy (int_add x0 sx) (if down then int_add y0 sy else y0)
      (if down then int_add less dx else less) (fb_set_pixel fb x0 y0)

unfoldable pub steep_loop : ℕ → ℕ → ℕ → ℕ → ℕ → ℕ → ℕ → ℕ → Array ℕ → Array ℕ
steep_loop zero dx dy sx sy x0 y0 err fb = fb
steep_loop (suc n) dx dy sx sy x0 y0 err fb =
    let less = int_sub err dx in
    let down = int_is_negative less in
    steep_loop n dx dy sx sy (if down then int_add x0 sx else x0) (int_add y0 sy)
      (if down then int_add less dy else less) (fb_set_pixel fb x0 y0)

-- `dx` and `sx`, and the same for `y`
abbrev pub magnitude : ℕ → ℕ
magnitude d = if int_is_negative d then int_sub 0 d else d

abbrev pub direction_of : ℕ → ℕ
direction_of d = if int_is_negative d then 2 ^ 32 - 1 else 1

-- The loops count from 0 to `dx`, or `dy`, so they have one round more.
unfoldable pub fb_line : Array ℕ → ℕ → ℕ → ℕ → ℕ → Array ℕ
fb_line fb x0 y0 x1 y1 =
    let dx = magnitude (int_sub x1 x0) in
    let dy = magnitude (int_sub y1 y0) in
    let sx = direction_of (int_sub x1 x0) in
    let sy = direction_of (int_sub y1 y0) in
    if leb dy dx
    then shallow_loop (dx + 1) dx dy sx sy x0 y0 (dx / 2) fb
    else steep_loop (dy + 1) dx dy sx sy x0 y0 (dy / 2) fb

-- The columns `col` to `col + n - 1` of a glyph's row.
unfoldable pub glyph_row : ℕ → ℕ → ℕ → ℕ → ℕ → Array ℕ → Array ℕ
glyph_row zero col bits x y fb = fb
glyph_row (suc n) col bits x y fb =
    glyph_row n (col + 1) bits x y
      (if has_bit bits (7 - col) then fb_set_pixel fb (int_add x col) y else fb)

unfoldable pub glyph_rows : ℕ → ℕ → ℕ → ℕ → ℕ → Array ℕ → Array ℕ
glyph_rows zero row glyph x y fb = fb
glyph_rows (suc n) row glyph x y fb =
    glyph_rows n (row + 1) glyph x y
      (glyph_row font_w 0 (element font_4x6 (glyph * font_h + row)) x (int_add y row) fb)

-- 63 is the question mark.
abbrev pub glyph_of : ℕ → ℕ
glyph_of c = (if ltb c font_first || ltb font_last c then 63 else c) - font_first

unfoldable pub fb_putchar : Array ℕ → ℕ → ℕ → ℕ → Array ℕ
fb_putchar fb x y c = glyph_rows font_h 0 (glyph_of c) x y fb

-- A string is the list of its characters, without the zero at its end.
unfoldable pub fb_puts_at : Array ℕ → ℕ → ℕ → List ℕ → Array ℕ
fb_puts_at fb x y [] = fb
fb_puts_at fb x y (c ∷ str) = fb_puts_at (fb_putchar fb x y c) (int_add x font_w) y str

unfoldable pub fb_text_putc : Array ℕ → ℕ → ℕ → ℕ → Array ℕ
fb_text_putc fb col row c = fb_putchar fb (col * font_w % 2 ^ 32) (row * font_h % 2 ^ 32) c

abbrev pub text_cols : ℕ
text_cols = 32

abbrev pub text_rows : ℕ
text_rows = 10

-- For `col` and `row` that are not negative.
unfoldable pub fb_text_puts : Array ℕ → ℕ → ℕ → List ℕ → Array ℕ
fb_text_puts fb col row [] = fb
fb_text_puts fb col row (c ∷ str) =
    let put : ℕ → ℕ → Array ℕ =
      λ col row. fb_putchar fb (col * font_w % 2 ^ 32) (row * font_h % 2 ^ 32) c in
    let next_line = fb_text_puts (put 0 (row + 1)) 1 (row + 1) str in
    let same_line = fb_text_puts (put col row) (col + 1) row str in
    if leb text_cols col then (if leb text_rows (row + 1) then fb else next_line) else same_line

-- The sync header and the framebuffer, as they go to the UART.
unfoldable pub fb_flush : Array ℕ → List ℕ
fb_flush fb = 0x00 ∷ 0xff ∷ 0x00 ∷ 0xff ∷ uart_write_raw fb fb_size
