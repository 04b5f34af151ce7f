-- ===== src/GameBoy/Gpu/Render/OneLine.antt =====
-- The renderer writes to its own line of the picture only.
use gb_os.Base.{ℕ, zero, suc, ◌+◌, ◌-◌, ◌*◌, ◌≤◌, ◌<◌, ◌≡◌, ◌≢◌, ◌⊎◌, inl, inr, refl, ◌∙◌, arith}
use gb_os.Base.{Option, none, some, List, [], ◌∷◌, not, ◌||◌, false, Bool, ltb, leb}
use gb_os.Base.{if◌then◌else◌, if_both, if_cases, length, get_or, set, length-set, get_or-set_ne}
use mathlib.Core.Path.{subst}
use gb_os.GameBoy.Mode.{is_color}
use gb_os.GameBoy.Gpu.{Gpu, Frame, PrioType, screen_w}
use gb_os.GameBoy.Gpu.Render.{
  Pixel, set_three, setcolor, setpal, setrgb, draw_pixel, pixel_source, draw_columns, draw_bg,
  clear_columns,
}
use gb_os.GameBoy.Gpu.Render.Sprites.{
  Sprite, SpriteRow, draw_sprite_pixel, draw_sprite_columns, draw_sprite, draw_each, draw_sprites,
  renderscan, cgb_sprite_order, dmg_sprite_order, sort_by, sprites_on_line,
}

-- An index outside a line of the given width.
abbrev pub IsOutside : ℕ → ℕ → ℕ → Type 0
IsOutside line width i = (i < line * width) ⊎ (line * width + width ≤ i)

-- Every byte and index of the other lines is as before, and the buffers have their sizes.
pub record KeepsOthers (line : ℕ) (f g : Frame) : Type 0 where
  pub rgb_same : (i : ℕ) → IsOutside line 480 i → get_or g.rgb i 0 ≡ get_or f.rgb i 0
  pub pal_same : (i : ℕ) → IsOutside line 160 i → get_or g.pal_data i 0 ≡ get_or f.pal_data i 0
  pub rgb_size : length g.rgb ≡ length f.rgb
  pub pal_size : length g.pal_data ≡ length f.pal_data

module _ (line : ℕ) where
  KeepsOthers-refl : (f : Frame) → KeepsOthers line f f
  KeepsOthers-refl f = record {
    rgb_same = λ i o. refl;
    pal_same = λ i o. refl;
    rgb_size = refl;
    pal_size = refl;
  }

  KeepsOthers-trans :
      (f g h : Frame) → KeepsOthers line f g → KeepsOthers line g h → KeepsOthers line f h
  KeepsOthers-trans f g h p q = record {
    rgb_same = λ i o. q.rgb_same i o ∙ p.rgb_same i o;
    pal_same = λ i o. q.pal_same i o ∙ p.pal_same i o;
    rgb_size = q.rgb_size ∙ p.rgb_size;
    pal_size = q.pal_size ∙ p.pal_size;
  }

  outside_ne : (x k i : ℕ) → x < 160 → k < 3 → IsOutside line 480 i → line * 480 + x * 3 + k ≢ i
  outside_ne x k i h kh (inl low) e = absurd (omega arith)
  outside_ne x k i h kh (inr high) e = absurd (omega arith)

  outside_pal_ne : (x i : ℕ) → x < 160 → IsOutside line 160 i → line * 160 + x ≢ i
  outside_pal_ne x i h (inl low) e = absurd (omega arith)
  outside_pal_ne x i h (inr high) e = absurd (omega arith)

  set_three-KeepsOthers :
      (f : Frame) (x r g b : ℕ)
      → x < 160
      → KeepsOthers line f (set_three f (line * screen_w * 3 + x * 3) r g b)
  unfolding set_three
  set_three-KeepsOthers f x r g b h =
      let base = line * screen_w * 3 + x * 3 in
      let one = set f.rgb (base + 0) r in
      let two = set one (base + 1) g in
      record {
        rgb_same = λ i o.
            get_or-set_ne two (base + 2) i b 0
              (λ e. outside_ne x 2 i h (omega arith) o (omega arith))
            ∙ get_or-set_ne one (base + 1) i g 0
                (λ e. outside_ne x 1 i h (omega arith) o (omega arith))
            ∙ get_or-set_ne f.rgb (base + 0) i r 0
                (λ e. outside_ne x 0 i h (omega arith) o (omega arith));
        pal_same = λ i o. refl;
        rgb_size =
            length-set two (base + 2) b
            ∙ length-set one (base + 1) g
            ∙ length-set f.rgb (base + 0) r;
        pal_size = refl;
      }

  setpal-KeepsOthers : (f : Frame) (x v : ℕ) → x < 160 → KeepsOthers line f (setpal line f x v)
  unfolding setpal
  setpal-KeepsOthers f x v h = record {
    rgb_same = λ i o. refl;
    pal_same = λ i o.
        get_or-set_ne f.pal_data (line * screen_w + x) i v 0
          (λ e. outside_pal_ne x i h o (omega arith));
    rgb_size = refl;
    pal_size = length-set f.pal_data (line * screen_w + x) v;
  }

  -- A pixel's colour and palette index.
  setcolor-KeepsOthers :
      (f : Frame) (x c v : ℕ) → x < 160 → KeepsOthers line f (setpal line (setcolor line f x c) x v)
  unfolding setcolor
  setcolor-KeepsOthers f x c v h =
      KeepsOthers-trans f _ _ (set_three-KeepsOthers f x c c c h) (setpal-KeepsOthers _ x v h)

  setrgb-KeepsOthers :
      (f : Frame) (x r g b v : ℕ)
      → x < 160
      → KeepsOthers line f (setpal line (setrgb line f x r g b) x v)
  unfolding setrgb
  setrgb-KeepsOthers f x r g b v h =
      KeepsOthers-trans f _ _ (set_three-KeepsOthers f x _ _ _ h) (setpal-KeepsOthers _ x v h)

  -- Priorities are not part of the picture.
  marked-KeepsOthers :
      (f : Frame) (p : List PrioType) (g : Frame)
      → KeepsOthers line (record f { bgprio = p }) g
      → KeepsOthers line f g
  marked-KeepsOthers f p g k = record {
    rgb_same = k.rgb_same;
    pal_same = k.pal_same;
    rgb_size = k.rgb_size;
    pal_size = k.pal_size;
  }

draw_pixel-KeepsOthers :
    (g : Gpu) (f : Frame) (x : ℕ) (p : Pixel) → x < 160 → KeepsOthers g.line f (draw_pixel g f x p)
unfolding draw_pixel
draw_pixel-KeepsOthers g f x p h =
    if_both (KeepsOthers g.line f) (is_color g.gbmode) _ _
      (marked-KeepsOthers g.line f _ _ (setrgb-KeepsOthers g.line _ x _ _ _ _ h))
      (marked-KeepsOthers g.line f _ _ (setcolor-KeepsOthers g.line _ x _ _ h))

-- One column, drawn or not.
column-KeepsOthers :
    (g : Gpu) (f : Frame) (x : ℕ) (p : Option Pixel)
    → x < 160
    → KeepsOthers g.line f (elim p [ none ↦ f | some q ↦ draw_pixel g f x q ])
column-KeepsOthers g f x none h = KeepsOthers-refl g.line f
column-KeepsOthers g f x (some q) h = draw_pixel-KeepsOthers g f x q h

draw_columns-KeepsOthers :
    (n : ℕ) (g : Gpu) (winy : Option ℕ) (drawbg : Bool) (x : ℕ) (f : Frame)
    → x + n ≤ 160
    → KeepsOthers g.line f (draw_columns g winy drawbg n x f)
unfolding draw_columns
draw_columns-KeepsOthers zero g winy drawbg x f h = KeepsOthers-refl g.line f
draw_columns-KeepsOthers (suc n) g winy drawbg x f h =
    KeepsOthers-trans g.line f _ _
      (column-KeepsOthers g f x (pixel_source g winy drawbg x) (omega arith))
      (draw_columns-KeepsOthers n g winy drawbg (x + 1) _ (omega arith))

-- The drawn state keeps the other lines, and is at the same line.
record IsOneLine (g h : Gpu) : Type 0 where
  same_line : h.line ≡ g.line
  keeps : KeepsOthers g.line g.frame h.frame

draw_bg-IsOneLine : (g : Gpu) → IsOneLine g (draw_bg g)
unfolding draw_bg
draw_bg-IsOneLine g = record {
  same_line = refl;
  keeps =
      if_both (KeepsOthers g.line g.frame) _ _ _ (KeepsOthers-refl g.line g.frame)
        (draw_columns-KeepsOthers 160 g _ _ 0 g.frame (omega arith));
}

column_in_range : (a : ℕ) → (ltb a 8 || leb (160 + 8) a) ≡ false → a - 8 < 160
column_in_range a e = ground arith

draw_sprite_pixel-KeepsOthers :
    (g : Gpu) (s : Sprite) (row : SpriteRow) (x : ℕ) (f : Frame)
    → KeepsOthers g.line f (draw_sprite_pixel g s row x f)
unfolding draw_sprite_pixel
draw_sprite_pixel-KeepsOthers g s row x f =
    let P = KeepsOthers g.line f in
    let same = KeepsOthers-refl g.line f in
    if_cases P (ltb (s.x + x) 8 || leb (screen_w + 8) (s.x + x)) _ _ (λ _. same)
      (λ seen.
        let h = column_in_range (s.x + x) seen in
        if_both P _ _ _ same (
          if_both P _ _ _ same (
            if_both P (is_color g.gbmode) _ _ (setrgb-KeepsOthers g.line f _ _ _ _ _ h)
              (setcolor-KeepsOthers g.line f _ _ _ h))))

draw_sprite_columns-KeepsOthers :
    (n : ℕ) (g : Gpu) (s : Sprite) (row : SpriteRow) (x : ℕ) (f : Frame)
    → KeepsOthers g.line f (draw_sprite_columns g s row n x f)
unfolding draw_sprite_columns
draw_sprite_columns-KeepsOthers zero g s row x f = KeepsOthers-refl g.line f
draw_sprite_columns-KeepsOthers (suc n) g s row x f =
    KeepsOthers-trans g.line f _ _ (draw_sprite_pixel-KeepsOthers g s row x f)
      (draw_sprite_columns-KeepsOthers n g s row (x + 1) _)

draw_each-KeepsOthers :
    (sprites : List Sprite) (g : Gpu) (f : Frame) → KeepsOthers g.line f (draw_each g sprites f)
unfolding draw_each draw_sprite
draw_each-KeepsOthers [] g f = KeepsOthers-refl g.line f
draw_each-KeepsOthers (s ∷ rest) g f =
    KeepsOthers-trans g.line f _ _
      (if_both (KeepsOthers g.line f) (ltb s.x 1 || leb (screen_w + 8) s.x) _ _
        (KeepsOthers-refl g.line f) (draw_sprite_columns-KeepsOthers 8 g s _ 0 f))
      (draw_each-KeepsOthers rest g _)

drawn-IsOneLine :
    (g : Gpu) (sprites : List Sprite)
    → IsOneLine g (record g { frame = draw_each g sprites g.frame })
drawn-IsOneLine g sprites = record {
  same_line = refl;
  keeps = draw_each-KeepsOthers sprites g g.frame;
}

draw_sprites-IsOneLine : (g : Gpu) → IsOneLine g (draw_sprites g)
unfolding draw_sprites
draw_sprites-IsOneLine g =
    let order = if is_color g.gbmode then cgb_sprite_order else dmg_sprite_order in
    if_both (IsOneLine g) (not g.sprite_on) _ _
      (record { same_line = refl; keeps = KeepsOthers-refl g.line g.frame })
      (drawn-IsOneLine g (sort_by order (sprites_on_line g 40 0 10)))

clear_columns-KeepsOthers :
    (n line x : ℕ) (f : Frame) → x + n ≤ 160 → KeepsOthers line f (clear_columns line n x f)
unfolding clear_columns
clear_columns-KeepsOthers zero line x f h = KeepsOthers-refl line f
clear_columns-KeepsOthers (suc n) line x f h =
    KeepsOthers-trans line f _ _ (setcolor-KeepsOthers line f x 255 0 (omega arith))
      (marked-KeepsOthers line _ _ _ (clear_columns-KeepsOthers n line (x + 1) _ (omega arith)))

renderscan-IsOneLine : (g : Gpu) → IsOneLine g (renderscan g)
unfolding renderscan
renderscan-IsOneLine g =
    let cleared : Gpu = record g { frame = clear_columns g.line screen_w 0 g.frame } in
    let bg = draw_bg-IsOneLine cleared in
    let sprites = draw_sprites-IsOneLine (draw_bg cleared) in
    if_both (IsOneLine g) g.first_frame _ _
      (record { same_line = refl; keeps = KeepsOthers-refl g.line g.frame })
      (record {
        same_line = sprites.same_line ∙ bg.same_line;
        keeps =
            KeepsOthers-trans g.line g.frame _ _
              (clear_columns-KeepsOthers 160 g.line 0 g.frame (omega arith))
              (KeepsOthers-trans g.line cleared.frame _ _ bg.keeps (
                subst
                  (λ l.
                    KeepsOthers l (draw_bg cleared).frame (draw_sprites (draw_bg cleared)).frame)
                  bg.same_line sprites.keeps));
      })

-- Drawing a line writes to that line of the picture and of its palette indices only, wherever the
-- window and the sprites stand, and the two buffers keep their sizes.
pub renderscan-KeepsOthers : (g : Gpu) → KeepsOthers g.line g.frame (renderscan g).frame
renderscan-KeepsOthers g = (renderscan-IsOneLine g).keeps
