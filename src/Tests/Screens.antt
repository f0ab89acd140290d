-- ===== src/Tests/Screens.antt =====
-- The theorems on drawing, on the bridge's lines and on the lines of user programs.
use freshos.Base.{
  ℕ, List, ◌≤◌, ltb, length, replicate, length-replicate, ◌≡◌, ◌⊎◌, refl, arith, true, [], ◌∷◌,
  ◌++◌, ◌==◌, ◌&&◌, if◌then◌else◌,
}
use freshos.Framebuffer.{
  Pixels, Color, Framebuffer, Fonts, put_pixel, draw_rect, draw_char, read_pixel,
}
use freshos.Framebuffer.Inside.{IsVisible}
use freshos.Framebuffer.Draws.{rect, char, done, next, drawing_inside}
use freshos.Framebuffer.Reads.{AreBytes, read_pixel-put_pixel}
use freshos.Desktop.{Rect, rect_intersection, fmt_u64}
use freshos.Desktop.Areas.{is_in, is_in_some, is_in-rect_intersection}
use freshos.Desktop.Digits.{read_digits, read-fmt_u64}
use freshos.Abi.{max_log}
use freshos.Runtime.{write_str}
use freshos.Runtime.Cut.{encode_all, IsCutAt, write_str_cuts}
use freshos.Mcp.{listening, drain}
use freshos.Mcp.Framing.{event_of, stripped, drain_line}

-- Four by three pixels, with rows of six.
abbrev screen : Framebuffer
screen = record { base = 64; width = 4; height = 3; stride = 6; is_bgr = true }

abbrev red : Color
red = record { r = 255; g = 0; b = 0 }

abbrev fonts : Fonts
fonts = record { font = []; font_data = [] }

abbrev black : Pixels
black = λ a. 0

abbrev boxed : Pixels
boxed = draw_rect screen 2 1 9 9 red black

drawing_inside_example :
    (draw_char fonts screen 3 2 65 red 2 boxed 88 ≡ black 88) ⊎ IsVisible screen 88
drawing_inside_example =
    drawing_inside fonts screen
      (next (rect 2 1 9 9 red black) (next (char 3 2 65 red 2 boxed) (done _))) 88

red-AreBytes : AreBytes red
unfolding AreBytes
red-AreBytes = (omega arith, omega arith, omega arith)

read_pixel-put_pixel_example :
    read_pixel screen 1 2 (put_pixel screen 1 2 red black)
    ≡ (if 1 == 1 && 2 == 2 then red else read_pixel screen 1 2 black)
read_pixel-put_pixel_example =
    read_pixel-put_pixel screen 1 2 1 2 red black (omega arith) red-AreBytes (omega arith)
      (omega arith) (omega arith) (omega arith)

-- "{}" with a carriage return before its newline.
drain_line_example :
    drain listening ((123 ∷ 125 ∷ 13 ∷ []) ++ (10 ∷ []))
    ≡ (listening, event_of (stripped (123 ∷ 125 ∷ 13 ∷ [])) ∷ [])
drain_line_example = drain_line (123 ∷ 125 ∷ 13 ∷ []) refl

abbrev window : Rect
window = record { x = 10; y = 20; w = 30; h = 40 }

abbrev panel : Rect
panel = record { x = 35; y = 0; w = 100; h = 25 }

is_in-rect_intersection_example :
    is_in_some (rect_intersection window panel) 36 22 ≡ (is_in window 36 22 && is_in panel 36 22)
is_in-rect_intersection_example =
    is_in-rect_intersection window panel 36 22 (record { across = omega arith; down = omega arith })
      (record { across = omega arith; down = omega arith })

read-fmt_u64_example : read_digits 0 (fmt_u64 1_024 20) ≡ 1_024
read-fmt_u64_example = read-fmt_u64 1_024 (omega arith)

-- The UTF-8 form of ASCII, and of the arrow U+2192 for anything else.
abbrev utf8 : ℕ → List ℕ
utf8 ch = if ltb ch 128 then ch ∷ [] else 0xE2 ∷ 0x86 ∷ 0x92 ∷ []

-- A line with room for two bytes takes a letter, and neither the arrow nor what follows.
abbrev dashes : List ℕ
dashes = replicate 254 b'-'

write_str_cuts_example :
    (kept left : List ℕ) × (b'x' ∷ 0x2192 ∷ b'y' ∷ [] ≡ kept ++ left)
    × (write_str utf8 dashes (b'x' ∷ 0x2192 ∷ b'y' ∷ []) ≡ dashes ++ encode_all utf8 kept)
    × (length (write_str utf8 dashes (b'x' ∷ 0x2192 ∷ b'y' ∷ [])) ≤ max_log)
    × IsCutAt utf8 (write_str utf8 dashes (b'x' ∷ 0x2192 ∷ b'y' ∷ [])) left
write_str_cuts_example =
    write_str_cuts utf8 dashes (b'x' ∷ 0x2192 ∷ b'y' ∷ [])
      (omega (arith, length-replicate {A = ℕ} 254 b'-'))
