-- ===== src/Framebuffer.antt =====
-- kernel/src/framebuffer.rs: drawing into a framebuffer or an off-screen surface. Memory is a function
-- from the address of a pixel, four bytes, to its value; a surface begins at a pixel. The glyph tables
-- that font.rs and font_aa.rs look characters up in are arguments.
pub mod Inside
pub mod Draws
pub mod Reads
use freshos.Base.{
  ℕ, zero, suc, ◌+◌, ◌-◌, ◌*◌, ◌/◌, ◌%◌, ◌^◌, min, bit_and, bit_or, Bool, true, false, not, ◌||◌,
  List, [], ◌∷◌, ◌&&◌, take, drop, leb, ltb, ◌==◌, if◌then◌else◌, get_or,
}

abbrev pub Pixels : Type 0
Pixels = ℕ → ℕ

pub record Color : Type 0 where
  pub r : ℕ
  pub g : ℕ
  pub b : ℕ

pub record Framebuffer : Type 0 where
  pub base : ℕ
  pub width : ℕ
  pub height : ℕ
  pub stride : ℕ
  pub is_bgr : Bool

abbrev pub char_width : ℕ
char_width = 8

abbrev pub glyph_w : ℕ
glyph_w = 10

abbrev pub glyph_h : ℕ
glyph_h = 18

-- The tables `FONT`, one list of rows for each character, and `FONT_DATA`.
pub record Fonts : Type 0 where
  pub font : List (List ℕ)
  pub font_data : List ℕ

abbrev pub unknown : List ℕ
unknown = 0xFF ∷ 0x81 ∷ 0x81 ∷ 0x81 ∷ 0x81 ∷ 0x81 ∷ 0x81 ∷ 0xFF ∷ []

-- The rows of a glyph, as bits.
unfoldable pub glyph : Fonts → ℕ → List ℕ
glyph fonts ch = if leb 32 ch && ltb ch 127 then get_or fonts.font (ch - 32) unknown else unknown

-- The opacity of each pixel of a glyph, row by row; a space for what is unknown.
unfoldable pub glyph_alpha : Fonts → ℕ → List ℕ
glyph_alpha fonts ch =
    if leb 32 ch && ltb ch 127
    then take (glyph_w * glyph_h) (drop ((ch - 32) * glyph_w * glyph_h) fonts.font_data)
    else take (glyph_w * glyph_h) fonts.font_data

-- The address of a pixel.
abbrev pub pixel_at : Framebuffer → ℕ → ℕ → ℕ
pixel_at fb x y = fb.base + (y * fb.stride + x) * 4

unfoldable pub write_pixel : Pixels → ℕ → ℕ → Pixels
write_pixel m a v = λ p. if p == a then v else m p

unfoldable pub packed_pixel : Framebuffer → Color → ℕ
packed_pixel fb c =
    if fb.is_bgr
    then bit_or (bit_or (c.r * 2 ^ 16) (c.g * 2 ^ 8)) c.b
    else bit_or (bit_or (c.b * 2 ^ 16) (c.g * 2 ^ 8)) c.r

-- `for i in i..i + n { step(i) }`.
unfoldable pub for_range : ℕ → ℕ → (ℕ → Pixels → Pixels) → Pixels → Pixels
for_range i zero step m = m
for_range i (suc n) step m = for_range (i + 1) n step (step i m)

unfoldable pub put_pixel : Framebuffer → ℕ → ℕ → Color → Pixels → Pixels
unfolding write_pixel packed_pixel
put_pixel fb x y c m =
    if leb fb.width x || leb fb.height y
    then m
    else write_pixel m (pixel_at fb x y) (packed_pixel fb c)

unfoldable pub draw_rect : Framebuffer → ℕ → ℕ → ℕ → ℕ → Color → Pixels → Pixels
unfolding for_range write_pixel packed_pixel
draw_rect fb x y w h c m =
    let copy_w : ℕ = min w (fb.width - x) in
    let copy_h : ℕ = min h (fb.height - y) in
    if leb fb.width x || leb fb.height y || w == 0 || h == 0
    then m
    else for_range 0 copy_h
        (λ dy.
          for_range 0 copy_w
            λ dx m'. write_pixel m' (pixel_at fb (x + dx) (y + dy)) (packed_pixel fb c))
        m

unfoldable pub clear : Framebuffer → Color → Pixels → Pixels
unfolding draw_rect
clear fb c m = draw_rect fb 0 0 fb.width fb.height c m

-- One row of a glyph: a block of pixels for each bit that is set.
unfoldable pub draw_row : Framebuffer → ℕ → ℕ → ℕ → Color → ℕ → Pixels → Pixels
unfolding for_range put_pixel
draw_row fb x y bits color scale m =
    for_range 0 char_width
      (λ col m'.
        if bit_and bits (0x80 / 2 ^ col) == 0
        then m'
        else for_range 0 scale
            (λ sy. for_range 0 scale λ sx. put_pixel fb (x + col * scale + sx) (y + sy) color) m')
      m

-- `for (row, &bits) in glyph.iter().enumerate()`, from `row`.
unfoldable pub draw_rows : Framebuffer → ℕ → ℕ → ℕ → List ℕ → Color → ℕ → Pixels → Pixels
unfolding draw_row
draw_rows fb x y row [] color scale m = m
draw_rows fb x y row (bits ∷ rows) color scale m =
    draw_rows fb x y (suc row) rows color scale (draw_row fb x (y + row * scale) bits color scale m)

unfoldable pub draw_char : Fonts → Framebuffer → ℕ → ℕ → ℕ → Color → ℕ → Pixels → Pixels
unfolding draw_rows glyph
draw_char fonts fb x y ch color scale m = draw_rows fb x y 0 (glyph fonts ch) color scale m

-- `for ch in s.chars()`, with the position of the next character.
unfoldable pub draw_string : Fonts → Framebuffer → ℕ → ℕ → List ℕ → Color → ℕ → Pixels → Pixels
unfolding draw_char
draw_string fonts fb cx y [] color scale m = m
draw_string fonts fb cx y (ch ∷ chs) color scale m =
    draw_string fonts fb (cx + (char_width + 1) * scale) y chs color scale
      (draw_char fonts fb cx y ch color scale m)

-- `fg` over `bg` at the opacity `a`.
unfoldable pub blend : Color → Color → ℕ → Color
blend fg bg a = record {
  r = (fg.r * a + bg.r * (255 - a)) / 255 % 256;
  g = (fg.g * a + bg.g * (255 - a)) / 255 % 256;
  b = (fg.b * a + bg.b * (255 - a)) / 255 % 256;
}

-- The pixels of an opacity table, each one drawn by `put`; 0 is skipped.
unfoldable pub draw_alpha :
    List ℕ → Color → Color → (ℕ → ℕ → Color → Pixels → Pixels) → Pixels → Pixels
unfolding for_range blend
draw_alpha alpha_data fg bg put m =
    for_range 0 glyph_h
      (λ row. for_range 0 glyph_w λ col m'.
        let a : ℕ = get_or alpha_data (row * glyph_w + col) 0 in
        if a == 0 then m' else put row col (blend fg bg a) m')
      m

unfoldable pub draw_aa_char : Fonts → Framebuffer → ℕ → ℕ → ℕ → Color → Color → Pixels → Pixels
unfolding draw_alpha put_pixel glyph_alpha
draw_aa_char fonts fb x y ch fg bg m =
    draw_alpha (glyph_alpha fonts ch) fg bg (λ row col c. put_pixel fb (x + col) (y + row) c) m

unfoldable pub draw_aa_string :
    Fonts → Framebuffer → ℕ → ℕ → List ℕ → Color → Color → Pixels → Pixels
unfolding draw_aa_char
draw_aa_string fonts fb cx y [] fg bg m = m
draw_aa_string fonts fb cx y (ch ∷ chs) fg bg m =
    draw_aa_string fonts fb (cx + glyph_w) y chs fg bg (draw_aa_char fonts fb cx y ch fg bg m)

-- Four pixels for one.
unfoldable pub put_block : Framebuffer → ℕ → ℕ → Color → Pixels → Pixels
unfolding put_pixel
put_block fb x y c m =
    put_pixel fb (x + 1) (y + 1) c
      (put_pixel fb x (y + 1) c (put_pixel fb (x + 1) y c (put_pixel fb x y c m)))

unfoldable pub draw_aa_string_2x :
    Fonts → Framebuffer → ℕ → ℕ → List ℕ → Color → Color → Pixels → Pixels
unfolding draw_alpha put_block glyph_alpha
draw_aa_string_2x fonts fb cx y [] fg bg m = m
draw_aa_string_2x fonts fb cx y (ch ∷ chs) fg bg m =
    draw_aa_string_2x fonts fb (cx + glyph_w * 2) y chs fg bg (
      draw_alpha (glyph_alpha fonts ch) fg bg
        (λ row col c. put_block fb (cx + col * 2) (y + row * 2) c) m)

-- A row at a time. The surfaces do not overlap, as `copy_nonoverlapping` demands.
unfoldable pub copy_rect_from : Framebuffer → Framebuffer → ℕ → ℕ → ℕ → ℕ → ℕ → ℕ → Pixels → Pixels
unfolding for_range write_pixel
copy_rect_from fb src src_x src_y w h dest_x dest_y m =
    let copy_w : ℕ = min (min w (src.width - src_x)) (fb.width - dest_x) in
    let copy_h : ℕ = min (min h (src.height - src_y)) (fb.height - dest_y) in
    if leb src.width src_x
      || leb src.height src_y
      || leb fb.width dest_x
      || leb fb.height dest_y
      || w == 0
      || h == 0
    then m
    else for_range 0 copy_h
        (λ y. for_range 0 copy_w λ x m'.
          write_pixel m' (pixel_at fb (dest_x + x) (dest_y + y))
            (m' (pixel_at src (src_x + x) (src_y + y))))
        m

unfoldable pub blit : Framebuffer → Framebuffer → ℕ → ℕ → Pixels → Pixels
unfolding copy_rect_from
blit fb src dest_x dest_y m = copy_rect_from fb src 0 0 src.width src.height dest_x dest_y m

unfoldable pub copy_rect_to : Framebuffer → Framebuffer → ℕ → ℕ → ℕ → ℕ → ℕ → ℕ → Pixels → Pixels
unfolding copy_rect_from
copy_rect_to fb dst src_x src_y w h dest_x dest_y m =
    copy_rect_from dst fb src_x src_y w h dest_x dest_y m

unfoldable pub copy_to : Framebuffer → Framebuffer → Pixels → Pixels
unfolding copy_rect_to
copy_to fb dst m = copy_rect_to fb dst 0 0 fb.width fb.height 0 0 m

-- `for x in x..x + n`, until the right edge.
unfoldable pub half_row : Framebuffer → Framebuffer → ℕ → ℕ → ℕ → ℕ → ℕ → Pixels → Pixels
unfolding write_pixel
half_row fb src dest_x dest_y y x zero m = m
half_row fb src dest_x dest_y y x (suc n) m =
    let rest =
      half_row fb src dest_x dest_y y (x + 1) n (
        write_pixel m (pixel_at fb (dest_x + x) (dest_y + y)) (m (pixel_at src (x * 2) (y * 2)))) in
    if leb fb.width (dest_x + x) then m else rest

-- `for y in y..y + n`, until the lower edge.
unfoldable pub half_rows : Framebuffer → Framebuffer → ℕ → ℕ → ℕ → ℕ → Pixels → Pixels
unfolding half_row
half_rows fb src dest_x dest_y y zero m = m
half_rows fb src dest_x dest_y y (suc n) m =
    let rest =
      half_rows fb src dest_x dest_y (y + 1) n
        (half_row fb src dest_x dest_y y 0 (src.width / 2) m) in
    if leb fb.height (dest_y + y) then m else rest

unfoldable pub blit_scaled_half : Framebuffer → Framebuffer → ℕ → ℕ → Pixels → Pixels
unfolding half_rows
blit_scaled_half fb src dest_x dest_y m = half_rows fb src dest_x dest_y 0 (src.height / 2) m

-- The bytes of a little-endian pixel.
unfoldable pub read_pixel : Framebuffer → ℕ → ℕ → Pixels → Color
read_pixel fb x y m =
    let p : ℕ = m (pixel_at fb x y) in
    if leb fb.width x || leb fb.height y
    then record { r = 0; g = 0; b = 0 }
    else if fb.is_bgr
    then record { r = p / 2 ^ 16 % 256; g = p / 2 ^ 8 % 256; b = p % 256 }
    else record { r = p % 256; g = p / 2 ^ 8 % 256; b = p / 2 ^ 16 % 256 }
