-- ===== src/Framebuffer/Inside.antt =====
-- Drawing never writes outside of the framebuffer's visible pixels.
use freshos.Base.{
  ℕ, zero, suc, ◌+◌, ◌-◌, ◌*◌, ◌/◌, ◌^◌, ◌<◌, ◌≤◌, ◌≡◌, ◌⊎◌, refl, ◌∙◌, inl, inr, arith, Bool, true,
  false, ◌||◌, List, [], ◌∷◌, leb, ◌==◌, if◌then◌else◌, Bool-cases, min, get_or, bit_and,
}
use freshos.Framebuffer.{
  Pixels, Color, Framebuffer, Fonts, glyph, glyph_alpha, char_width, glyph_w, glyph_h, pixel_at,
  write_pixel, packed_pixel, for_range, put_pixel, draw_rect, draw_row, draw_rows, draw_char,
  draw_string, blend, draw_alpha, draw_aa_char, draw_aa_string, put_block, draw_aa_string_2x,
  copy_rect_from, half_row, half_rows,
}

-- The address is that of a visible pixel.
pub record IsVisible (fb : Framebuffer) (a : ℕ) : Type 0 where
  pub x : ℕ
  pub y : ℕ
  pub in_row : x < fb.width
  pub in_column : y < fb.height
  pub located : a ≡ pixel_at fb x y

-- Whatever has changed is visible.
abbrev pub StaysInside : Framebuffer → Pixels → Pixels → Type 0
StaysInside fb m m' = (a : ℕ) → (m' a ≡ m a) ⊎ IsVisible fb a

module _ (fb : Framebuffer) where
  -- An operation that stays inside, wherever it starts.
  abbrev pub IsSafe : (Pixels → Pixels) → Type 0
  IsSafe op = (m : Pixels) → StaysInside fb m (op m)

  pub same-IsSafe : IsSafe (λ m. m)
  same-IsSafe m a = inl refl

  pub then-IsSafe : (f g : Pixels → Pixels) → IsSafe f → IsSafe g → IsSafe (λ m. g (f m))
  then-IsSafe f g hf hg m a = elim (hg (f m) a) [
    | inr v ↦ inr v
    | inl e ↦ (elim (hf m a) [ inr v ↦ inr v | inl e' ↦ inl (e ∙ e') ])
  ]

  -- `if stop { return }`.
  pub unless-IsSafe :
      (stop : Bool) (f : Pixels → Pixels)
      → (stop ≡ false → IsSafe f)
      → IsSafe (λ m. if stop then m else f m)
  unless-IsSafe true f h = same-IsSafe
  unless-IsSafe false f h = h refl

  pub for_range-IsSafe :
      (i n : ℕ) (step : ℕ → Pixels → Pixels)
      → ((j : ℕ) → j < i + n → IsSafe (step j))
      → IsSafe (for_range i n step)
  unfolding for_range
  for_range-IsSafe i zero step h = same-IsSafe
  for_range-IsSafe i (suc n) step h =
      then-IsSafe (step i) (for_range (i + 1) n step) (h i (omega arith))
        (for_range-IsSafe (i + 1) n step (λ j l. h j (omega arith)))

  pub write_pixel-IsSafe :
      (x y : ℕ) (v : Pixels → ℕ)
      → x < fb.width
      → y < fb.height
      → IsSafe (λ m. write_pixel m (pixel_at fb x y) (v m))
  unfolding write_pixel
  write_pixel-IsSafe x y v lx ly m a = elim (Bool-cases (a == pixel_at fb x y)) [
    | inl e ↦
        inr (record { x = x; y = y; in_row = lx; in_column = ly; located = ground (arith, e) })
    | inr e ↦ inl (rw e refl)
  ]

  pub put_pixel-IsSafe : (x y : ℕ) (c : Color) → IsSafe (put_pixel fb x y c)
  unfolding put_pixel
  put_pixel-IsSafe x y c =
      unless-IsSafe (leb fb.width x || leb fb.height y) _
        λ e. write_pixel-IsSafe x y (λ m. packed_pixel fb c) (ground (arith, e)) (ground (arith, e))

  -- A loop over the pixels of a rectangle within the framebuffer.
  pub rows-IsSafe :
      (x y w h : ℕ) (v : ℕ → ℕ → Pixels → ℕ)
      → x + w ≤ fb.width
      → y + h ≤ fb.height
      → IsSafe (
          for_range 0 h
            λ dy. for_range 0 w λ dx m. write_pixel m (pixel_at fb (x + dx) (y + dy)) (v dx dy m))
  rows-IsSafe x y w h v lw lh = for_range-IsSafe 0 h _ λ dy ly.
      for_range-IsSafe 0 w _
        λ dx lx. write_pixel-IsSafe (x + dx) (y + dy) (v dx dy) (omega arith) (omega arith)

  pub draw_rect-IsSafe : (x y w h : ℕ) (c : Color) → IsSafe (draw_rect fb x y w h c)
  unfolding draw_rect
  draw_rect-IsSafe x y w h c =
      unless-IsSafe (leb fb.width x || leb fb.height y || w == 0 || h == 0) _ λ e.
        rows-IsSafe x y (min w (fb.width - x)) (min h (fb.height - y))
          (λ dx dy m. packed_pixel fb c) (ground (arith, e)) (ground (arith, e))

  pub draw_row-IsSafe :
      (x y bits : ℕ) (c : Color) (scale : ℕ) → IsSafe (draw_row fb x y bits c scale)
  unfolding draw_row
  draw_row-IsSafe x y bits c scale = for_range-IsSafe 0 char_width _ λ col l.
      unless-IsSafe (bit_and bits (0x80 / 2 ^ col) == 0) _ λ e. for_range-IsSafe 0 scale _ λ sy ly.
        for_range-IsSafe 0 scale _ λ sx lx. put_pixel-IsSafe (x + col * scale + sx) (y + sy) c

  pub draw_rows-IsSafe :
      (rows : List ℕ) (x y row : ℕ) (c : Color) (scale : ℕ)
      → IsSafe (draw_rows fb x y row rows c scale)
  unfolding draw_rows
  draw_rows-IsSafe [] x y row c scale = same-IsSafe
  draw_rows-IsSafe (bits ∷ rows) x y row c scale =
      then-IsSafe (draw_row fb x (y + row * scale) bits c scale)
        (draw_rows fb x y (suc row) rows c scale) (draw_row-IsSafe x (y + row * scale) bits c scale)
        (draw_rows-IsSafe rows x y (suc row) c scale)

  pub draw_string-IsSafe :
      (fonts : Fonts) (chs : List ℕ) (cx y : ℕ) (c : Color) (scale : ℕ)
      → IsSafe (draw_string fonts fb cx y chs c scale)
  unfolding draw_string draw_char
  draw_string-IsSafe fonts [] cx y c scale = same-IsSafe
  draw_string-IsSafe fonts (ch ∷ chs) cx y c scale =
      then-IsSafe (draw_rows fb cx y 0 (glyph fonts ch) c scale)
        (draw_string fonts fb (cx + (char_width + 1) * scale) y chs c scale)
        (draw_rows-IsSafe (glyph fonts ch) cx y 0 c scale)
        (draw_string-IsSafe fonts chs (cx + (char_width + 1) * scale) y c scale)

  pub draw_alpha-IsSafe :
      (alpha : List ℕ) (fg bg : Color) (put : ℕ → ℕ → Color → Pixels → Pixels)
      → ((row col : ℕ) (c : Color) → IsSafe (put row col c))
      → IsSafe (draw_alpha alpha fg bg put)
  unfolding draw_alpha
  draw_alpha-IsSafe alpha fg bg put h = for_range-IsSafe 0 glyph_h _ λ row lr.
      for_range-IsSafe 0 glyph_w _ λ col lc.
        unless-IsSafe (get_or alpha (row * glyph_w + col) 0 == 0) _
          λ e. h row col (blend fg bg (get_or alpha (row * glyph_w + col) 0))

  pub draw_aa_string-IsSafe :
      (fonts : Fonts) (chs : List ℕ) (cx y : ℕ) (fg bg : Color)
      → IsSafe (draw_aa_string fonts fb cx y chs fg bg)
  unfolding draw_aa_string draw_aa_char
  draw_aa_string-IsSafe fonts [] cx y fg bg = same-IsSafe
  draw_aa_string-IsSafe fonts (ch ∷ chs) cx y fg bg =
      then-IsSafe _ _
        (draw_alpha-IsSafe (glyph_alpha fonts ch) fg bg
          (λ row col c. put_pixel fb (cx + col) (y + row) c)
          (λ row col c. put_pixel-IsSafe (cx + col) (y + row) c))
        (draw_aa_string-IsSafe fonts chs (cx + glyph_w) y fg bg)

  pub put_block-IsSafe : (x y : ℕ) (c : Color) → IsSafe (put_block fb x y c)
  unfolding put_block
  put_block-IsSafe x y c =
      then-IsSafe _ _
        (then-IsSafe _ _ (then-IsSafe _ _ (put_pixel-IsSafe x y c) (put_pixel-IsSafe (x + 1) y c))
          (put_pixel-IsSafe x (y + 1) c))
        (put_pixel-IsSafe (x + 1) (y + 1) c)

  pub draw_aa_string_2x-IsSafe :
      (fonts : Fonts) (chs : List ℕ) (cx y : ℕ) (fg bg : Color)
      → IsSafe (draw_aa_string_2x fonts fb cx y chs fg bg)
  unfolding draw_aa_string_2x
  draw_aa_string_2x-IsSafe fonts [] cx y fg bg = same-IsSafe
  draw_aa_string_2x-IsSafe fonts (ch ∷ chs) cx y fg bg =
      then-IsSafe _ _
        (draw_alpha-IsSafe (glyph_alpha fonts ch) fg bg
          (λ row col c. put_block fb (cx + col * 2) (y + row * 2) c)
          (λ row col c. put_block-IsSafe (cx + col * 2) (y + row * 2) c))
        (draw_aa_string_2x-IsSafe fonts chs (cx + glyph_w * 2) y fg bg)

  pub copy_rect_from-IsSafe :
      (src : Framebuffer) (src_x src_y w h dest_x dest_y : ℕ)
      → IsSafe (copy_rect_from fb src src_x src_y w h dest_x dest_y)
  unfolding copy_rect_from
  copy_rect_from-IsSafe src src_x src_y w h dest_x dest_y =
      unless-IsSafe
        (leb src.width src_x
          || leb src.height src_y
          || leb fb.width dest_x
          || leb fb.height dest_y
          || w == 0
          || h == 0)
        _
        λ e.
          rows-IsSafe dest_x dest_y (min (min w (src.width - src_x)) (fb.width - dest_x))
            (min (min h (src.height - src_y)) (fb.height - dest_y))
            (λ x y m. m (pixel_at src (src_x + x) (src_y + y))) (ground (arith, e))
            (ground (arith, e))

  pub half_row-IsSafe :
      (src : Framebuffer) (dest_x dest_y y x n : ℕ)
      → dest_y + y < fb.height
      → IsSafe (half_row fb src dest_x dest_y y x n)
  unfolding half_row
  half_row-IsSafe src dest_x dest_y y x zero l = same-IsSafe
  half_row-IsSafe src dest_x dest_y y x (suc n) l = unless-IsSafe (leb fb.width (dest_x + x)) _ λ e.
      then-IsSafe _ _
        (write_pixel-IsSafe (dest_x + x) (dest_y + y) (λ m. m (pixel_at src (x * 2) (y * 2)))
          (ground (arith, e)) l)
        (half_row-IsSafe src dest_x dest_y y (x + 1) n l)

  pub half_rows-IsSafe :
      (src : Framebuffer) (dest_x dest_y y n : ℕ) → IsSafe (half_rows fb src dest_x dest_y y n)
  unfolding half_rows
  half_rows-IsSafe src dest_x dest_y y zero = same-IsSafe
  half_rows-IsSafe src dest_x dest_y y (suc n) = unless-IsSafe (leb fb.height (dest_y + y)) _ λ e.
      then-IsSafe _ _ (half_row-IsSafe src dest_x dest_y y 0 (src.width / 2) (ground (arith, e)))
        (half_rows-IsSafe src dest_x dest_y (y + 1) n)
