-- ===== src/Framebuffer/Draws.antt =====
-- Any sequence of the operations of kernel/src/framebuffer.rs on one framebuffer.
use freshos.Base.{ℕ, ◌+◌, ◌/◌, ◌≡◌, ◌⊎◌, refl, inl, inr, ◌∙◌, List}
use freshos.Framebuffer.{
  Pixels, Color, Framebuffer, Fonts, glyph, put_pixel, clear, draw_rect, draw_char, draw_string,
  draw_aa_char, draw_aa_string, draw_aa_string_2x, copy_rect_from, blit, blit_scaled_half,
  glyph_alpha,
}
use freshos.Framebuffer.Inside.{
  IsVisible, StaysInside, put_pixel-IsSafe, draw_rect-IsSafe, draw_rows-IsSafe, draw_string-IsSafe,
  draw_alpha-IsSafe, draw_aa_string-IsSafe, draw_aa_string_2x-IsSafe, copy_rect_from-IsSafe,
  half_rows-IsSafe,
}

-- One drawing operation.
pub data Draw (fonts : Fonts) (fb : Framebuffer) : Pixels → Pixels → Type 0 where
  pixel : (x y : ℕ) (c : Color) (m : Pixels) → Draw fonts fb m (put_pixel fb x y c m)
  fill : (c : Color) (m : Pixels) → Draw fonts fb m (clear fb c m)
  rect : (x y w h : ℕ) (c : Color) (m : Pixels) → Draw fonts fb m (draw_rect fb x y w h c m)
  char :
      (x y ch : ℕ) (c : Color) (scale : ℕ) (m : Pixels)
      → Draw fonts fb m (draw_char fonts fb x y ch c scale m)
  string :
      (x y : ℕ) (s : List ℕ) (c : Color) (scale : ℕ) (m : Pixels)
      → Draw fonts fb m (draw_string fonts fb x y s c scale m)
  aa_char :
      (x y ch : ℕ) (fg bg : Color) (m : Pixels)
      → Draw fonts fb m (draw_aa_char fonts fb x y ch fg bg m)
  aa_string :
      (x y : ℕ) (s : List ℕ) (fg bg : Color) (m : Pixels)
      → Draw fonts fb m (draw_aa_string fonts fb x y s fg bg m)
  aa_string_2x :
      (x y : ℕ) (s : List ℕ) (fg bg : Color) (m : Pixels)
      → Draw fonts fb m (draw_aa_string_2x fonts fb x y s fg bg m)
  copy :
      (src : Framebuffer) (src_x src_y w h dest_x dest_y : ℕ) (m : Pixels)
      → Draw fonts fb m (copy_rect_from fb src src_x src_y w h dest_x dest_y m)
  copy_all :
      (src : Framebuffer) (dest_x dest_y : ℕ) (m : Pixels)
      → Draw fonts fb m (blit fb src dest_x dest_y m)
  copy_half :
      (src : Framebuffer) (dest_x dest_y : ℕ) (m : Pixels)
      → Draw fonts fb m (blit_scaled_half fb src dest_x dest_y m)

pub data Draws (fonts : Fonts) (fb : Framebuffer) : Pixels → Pixels → Type 0 where
  done : (m : Pixels) → Draws fonts fb m m
  next : {m m₁ m₂ : Pixels} → Draw fonts fb m m₁ → Draws fonts fb m₁ m₂ → Draws fonts fb m m₂

Draw-StaysInside :
    (fonts : Fonts) (fb : Framebuffer) {m m' : Pixels} → Draw fonts fb m m' → StaysInside fb m m'
unfolding clear draw_char draw_aa_char blit blit_scaled_half
Draw-StaysInside fonts fb (pixel x y c m) = put_pixel-IsSafe fb x y c m
Draw-StaysInside fonts fb (fill c m) = draw_rect-IsSafe fb 0 0 fb.width fb.height c m
Draw-StaysInside fonts fb (rect x y w h c m) = draw_rect-IsSafe fb x y w h c m
Draw-StaysInside fonts fb (char x y ch c scale m) =
    draw_rows-IsSafe fb (glyph fonts ch) x y 0 c scale m
Draw-StaysInside fonts fb (string x y s c scale m) = draw_string-IsSafe fb fonts s x y c scale m
Draw-StaysInside fonts fb (aa_char x y ch fg bg m) =
    draw_alpha-IsSafe fb (glyph_alpha fonts ch) fg bg
      (λ row col c. put_pixel fb (x + col) (y + row) c)
      (λ row col c. put_pixel-IsSafe fb (x + col) (y + row) c) m
Draw-StaysInside fonts fb (aa_string x y s fg bg m) = draw_aa_string-IsSafe fb fonts s x y fg bg m
Draw-StaysInside fonts fb (aa_string_2x x y s fg bg m) =
    draw_aa_string_2x-IsSafe fb fonts s x y fg bg m
Draw-StaysInside fonts fb (copy src src_x src_y w h dest_x dest_y m) =
    copy_rect_from-IsSafe fb src src_x src_y w h dest_x dest_y m
Draw-StaysInside fonts fb (copy_all src dest_x dest_y m) =
    copy_rect_from-IsSafe fb src 0 0 src.width src.height dest_x dest_y m
Draw-StaysInside fonts fb (copy_half src dest_x dest_y m) =
    half_rows-IsSafe fb src dest_x dest_y 0 (src.height / 2) m

-- Whatever is drawn, at whatever position and size: a pixel of memory that changes is a visible one of
-- the framebuffer, so neither the padding of its rows nor memory around it is written.
pub drawing_inside :
    (fonts : Fonts) (fb : Framebuffer) {m m' : Pixels}
    → Draws fonts fb m m'
    → (a : ℕ) → (m' a ≡ m a) ⊎ IsVisible fb a
drawing_inside fonts fb (done m) a = inl refl
drawing_inside fonts fb (next d ds) a = elim (drawing_inside fonts fb ds a) [
  | inr v ↦ inr v
  | inl e ↦ (elim (Draw-StaysInside fonts fb d a) [ inr v ↦ inr v | inl e' ↦ inl (e ∙ e') ])
]
