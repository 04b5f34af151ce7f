-- ===== src/GameBoy/Mmu/Peek/Same.antt =====
-- `peek` and `rb` agree: each is a choice of a source by the address, and the two choices are
-- compared at every address.
use gb_os.Base.{
  ℕ, ◌+◌, ◌-◌, ◌≤◌, ◌<◌, ◌≡◌, ◌≢◌, inl, inr, refl, sym, ap, ◌∙◌, bit_and, bit_or, arith,
}
use gb_os.Base.{
  Bool, true, false, not, ◌&&◌, ◌||◌, ◌==◌, in_range, if◌then◌else◌, get_or, Bool-cases, if_cases,
  ==_iff,
}
use mathlib.Core.Path.{subst}
use gb_os.Base.Word.{u8}
use gb_os.Base.Table.{every_below, every_below_sound}
use gb_os.GameBoy.Mode.{is_color, is_classic}
use gb_os.GameBoy.Serial
use gb_os.GameBoy.Timer
use gb_os.GameBoy.Keypad
use gb_os.GameBoy.Gpu.Read as GpuRead
use gb_os.GameBoy.Gpu.{Gpu}
use gb_os.GameBoy.Mmu.{
  Mmu, is_wram0, is_wram1, hdma_read, is_color_only, is_undocumented, speed_register, rb_io, rb,
}
use gb_os.GameBoy.Mmu.Peek.{peek_io, peek}

-- What an arm reads, by number.
abbrev open_bus : ℕ
open_bus = 0

abbrev from_gpu : ℕ
from_gpu = 7

read_source : Mmu → ℕ → ℕ → ℕ
read_source m a source =
    if source == 0
    then 0xFF
    else if source == 1
    then Keypad.rb m.keypad
    else if source == 2
    then Serial.rb m.serial a
    else if source == 3
    then Timer.rb m.timer a
    else if source == 4
    then bit_or m.intf 0xE0
    else if source == 5
    then speed_register m
    else if source == 6
    then u8 m.wrambank
    else if source == 7
    then GpuRead.rb m.gpu a
    else if source == 8
    then hdma_read m a
    else if source == 9
    then get_or m.undocumented_cgb_regs (a - 0xFF72) 0
    else if source == 10
    then bit_or (get_or m.undocumented_cgb_regs 2 0) 0x8F
    else if source == 11
    then 0x00
    else if source == 12
    then get_or m.zram (bit_and a 0x007F) 0
    else m.inte

rb_source : Bool → Bool → ℕ → ℕ
unfolding is_color_only is_undocumented
rb_source color classic a =
    if a == 0xFF00
    then 1
    else if in_range 0xFF01 0xFF02 a
    then 2
    else if in_range 0xFF04 0xFF07 a
    then 3
    else if a == 0xFF0F
    then 4
    else if in_range 0xFF10 0xFF3F a
    then 0
    else if is_color_only a && not (color)
    then 0
    else if is_undocumented a && classic
    then 0
    else if a == 0xFF4D
    then 5
    else if in_range 0xFF40 0xFF4F a
    then 7
    else if in_range 0xFF51 0xFF55 a
    then 8
    else if in_range 0xFF68 0xFF6B a
    then 7
    else if a == 0xFF70
    then 6
    else if in_range 0xFF72 0xFF73 a
    then 9
    else if a == 0xFF75
    then 10
    else if in_range 0xFF76 0xFF77 a
    then 11
    else if in_range 0xFF80 0xFFFE a
    then 12
    else if a == 0xFFFF
    then 13
    else 0

peek_source : Bool → Bool → ℕ → ℕ
peek_source color classic a =
    if in_range 0xFEA0 0xFEFF a
    then 0
    else if a == 0xFF00
    then 1
    else if in_range 0xFF01 0xFF02 a
    then 2
    else if a == 0xFF03
    then 0
    else if in_range 0xFF04 0xFF07 a
    then 3
    else if in_range 0xFF08 0xFF0E a
    then 0
    else if a == 0xFF0F
    then 4
    else if in_range 0xFF10 0xFF3F a
    then 0
    else if in_range 0xFF40 0xFF45 a
    then 7
    else if a == 0xFF46
    then 0
    else if in_range 0xFF47 0xFF4B a
    then 7
    else if a == 0xFF4C
    then 0
    else if a == 0xFF4D && not (color)
    then 0
    else if a == 0xFF4D
    then 5
    else if a == 0xFF4E
    then 0
    else if a == 0xFF4F && not (color)
    then 0
    else if a == 0xFF4F
    then 7
    else if a == 0xFF50
    then 0
    else if in_range 0xFF51 0xFF55 a && not (color)
    then 0
    else if in_range 0xFF51 0xFF55 a
    then 8
    else if in_range 0xFF56 0xFF67 a
    then 0
    else if in_range 0xFF68 0xFF6B a && not (color)
    then 0
    else if in_range 0xFF68 0xFF6B a
    then 7
    else if a == 0xFF6C && not (color)
    then 0
    else if a == 0xFF6C
    then 0
    else if in_range 0xFF6D 0xFF6F a
    then 0
    else if a == 0xFF70 && not (color)
    then 0
    else if a == 0xFF70
    then 6
    else if a == 0xFF71
    then 0
    else if in_range 0xFF72 0xFF73 a && classic
    then 0
    else if in_range 0xFF72 0xFF73 a
    then 9
    else if a == 0xFF74
    then 0
    else if a == 0xFF75 && classic
    then 0
    else if a == 0xFF75
    then 10
    else if in_range 0xFF76 0xFF77 a && classic
    then 0
    else if in_range 0xFF76 0xFF77 a
    then 11
    else if in_range 0xFF78 0xFF7F a
    then 0
    else if in_range 0xFF80 0xFFFE a
    then 12
    else 13

-- A value is what a source gives.
record IsReading (m : Mmu) (a value source : ℕ) : Type 0 where
  reads : value ≡ read_source m a source

-- A choice of values is what the choice of their sources gives.
choose :
    (m : Mmu) (a : ℕ) (b : Bool) (x y s t : ℕ)
    → IsReading m a x s
    → IsReading m a y t
    → IsReading m a (if b then x else y) (if b then s else t)
choose m a true x y s t p q = p
choose m a false x y s t p q = q

rb_io_lem :
    (m : Mmu) (a : ℕ)
    → IsReading m a (rb_io m a) (rb_source (is_color m.gbmode) (is_classic m.gbmode) a)
unfolding rb_io rb_source read_source
rb_io_lem m a =
    choose m a (a == 0xFF00) _ _ _ _ (record { reads = refl })
      (choose m a (in_range 0xFF01 0xFF02 a) _ _ _ _ (record { reads = refl })
        (choose m a (in_range 0xFF04 0xFF07 a) _ _ _ _ (record { reads = refl })
          (choose m a (a == 0xFF0F) _ _ _ _ (record { reads = refl })
            (choose m a (in_range 0xFF10 0xFF3F a) _ _ _ _ (record { reads = refl })
              (choose m a (is_color_only a && not (is_color m.gbmode)) _ _ _ _
                (record { reads = refl })
                (choose m a (is_undocumented a && is_classic m.gbmode) _ _ _ _
                  (record { reads = refl })
                  (choose m a (a == 0xFF4D) _ _ _ _ (record { reads = refl })
                    (choose m a (in_range 0xFF40 0xFF4F a) _ _ _ _ (record { reads = refl })
                      (choose m a (in_range 0xFF51 0xFF55 a) _ _ _ _ (record { reads = refl })
                        (choose m a (in_range 0xFF68 0xFF6B a) _ _ _ _ (record { reads = refl })
                          (choose m a (a == 0xFF70) _ _ _ _ (record { reads = refl })
                            (choose m a (in_range 0xFF72 0xFF73 a) _ _ _ _ (record { reads = refl })
                              (choose m a (a == 0xFF75) _ _ _ _ (record { reads = refl })
                                (choose m a (in_range 0xFF76 0xFF77 a) _ _ _ _
                                  (record { reads = refl })
                                  (choose m a (in_range 0xFF80 0xFFFE a) _ _ _ _
                                    (record { reads = refl })
                                    (choose m a (a == 0xFFFF) _ _ _ _ (record { reads = refl })
                                      (record { reads = refl })))))))))))))))))

peek_io_lem :
    (m : Mmu) (a : ℕ)
    → IsReading m a (peek_io m a) (peek_source (is_color m.gbmode) (is_classic m.gbmode) a)
unfolding peek_io peek_source read_source
peek_io_lem m a =
    choose m a (in_range 0xFEA0 0xFEFF a) _ _ _ _ (record { reads = refl })
      (choose m a (a == 0xFF00) _ _ _ _ (record { reads = refl })
        (choose m a (in_range 0xFF01 0xFF02 a) _ _ _ _ (record { reads = refl })
          (choose m a (a == 0xFF03) _ _ _ _ (record { reads = refl })
            (choose m a (in_range 0xFF04 0xFF07 a) _ _ _ _ (record { reads = refl })
              (choose m a (in_range 0xFF08 0xFF0E a) _ _ _ _ (record { reads = refl })
                (choose m a (a == 0xFF0F) _ _ _ _ (record { reads = refl })
                  (choose m a (in_range 0xFF10 0xFF3F a) _ _ _ _ (record { reads = refl })
                    (choose m a (in_range 0xFF40 0xFF45 a) _ _ _ _ (record { reads = refl })
                      (choose m a (a == 0xFF46) _ _ _ _ (record { reads = refl })
                        (choose m a (in_range 0xFF47 0xFF4B a) _ _ _ _ (record { reads = refl })
                          (choose m a (a == 0xFF4C) _ _ _ _ (record { reads = refl })
                            (choose m a (a == 0xFF4D && not (is_color m.gbmode)) _ _ _ _
                              (record { reads = refl })
                              (choose m a (a == 0xFF4D) _ _ _ _ (record { reads = refl })
                                (choose m a (a == 0xFF4E) _ _ _ _ (record { reads = refl })
                                  (choose m a (a == 0xFF4F && not (is_color m.gbmode)) _ _ _ _
                                    (record { reads = refl })
                                    (choose m a (a == 0xFF4F) _ _ _ _ (record { reads = refl })
                                      (choose m a (a == 0xFF50) _ _ _ _ (record { reads = refl })
                                        (choose m a
                                          (in_range 0xFF51 0xFF55 a && not (is_color m.gbmode)) _ _
                                          _ _ (record { reads = refl })
                                          (choose m a (in_range 0xFF51 0xFF55 a) _ _ _ _
                                            (record { reads = refl })
                                            (choose m a (in_range 0xFF56 0xFF67 a) _ _ _ _
                                              (record { reads = refl })
                                              (choose m a
                                                (in_range 0xFF68 0xFF6B a
                                                  && not (is_color m.gbmode))
                                                _ _ _ _ (record { reads = refl })
                                                (choose m a (in_range 0xFF68 0xFF6B a) _ _ _ _
                                                  (record { reads = refl })
                                                  (choose m a
                                                    (a == 0xFF6C && not (is_color m.gbmode)) _ _ _ _
                                                    (record { reads = refl })
                                                    (choose m a (a == 0xFF6C) _ _ _ _
                                                      (record { reads = refl })
                                                      (choose m a (in_range 0xFF6D 0xFF6F a) _ _ _ _
                                                        (record { reads = refl })
                                                        (choose m a
                                                          (a == 0xFF70 && not (is_color m.gbmode)) _
                                                          _ _ _ (record { reads = refl })
                                                          (choose m a (a == 0xFF70) _ _ _ _
                                                            (record { reads = refl })
                                                            (choose m a (a == 0xFF71) _ _ _ _
                                                            (record { reads = refl })
                                                            (choose m a
                                                            (in_range 0xFF72 0xFF73 a
                                                            && is_classic m.gbmode)
                                                            _ _ _ _ (record { reads = refl })
                                                            (choose m a (in_range 0xFF72 0xFF73 a) _
                                                            _ _ _ (record { reads = refl })
                                                            (choose m a (a == 0xFF74) _ _ _ _
                                                            (record { reads = refl })
                                                            (choose m a
                                                            (a == 0xFF75 && is_classic m.gbmode) _ _
                                                            _ _ (record { reads = refl })
                                                            (choose m a (a == 0xFF75) _ _ _ _
                                                            (record { reads = refl })
                                                            (choose m a
                                                            (in_range 0xFF76 0xFF77 a
                                                            && is_classic m.gbmode)
                                                            _ _ _ _ (record { reads = refl })
                                                            (choose m a (in_range 0xFF76 0xFF77 a) _
                                                            _ _ _ (record { reads = refl })
                                                            (choose m a (in_range 0xFF78 0xFF7F a) _
                                                            _ _ _ (record { reads = refl })
                                                            (choose m a (in_range 0xFF80 0xFFFE a) _
                                                            _ _ _ (record { reads = refl })
                                                            (record {
                                                            reads = refl;
                                                            }))))))))))))))))))))))))))))))))))))))

-- The display's own reads that give 0xFF: two registers that it has not, and the Color ones where
-- the display is not in Color mode.
settled : Bool → ℕ → ℕ → ℕ
settled color a source =
    if source == 7
    then (if a == 0xFF4C
        then 0
        else if a == 0xFF4E
        then 0
        else if in_range 0xFF4F 0xFF6B a && not color
        then 0
        else 7)
    else source

skip_test : (b : Bool) (x y z : ℕ) → b ≡ false → y ≡ z → (if b then x else y) ≡ z
skip_test true x y z e p = cc
skip_test false x y z e p = p

take_test : (b : Bool) (x y : ℕ) → b ≡ true → (if b then x else y) ≡ x
take_test true x y e = refl
take_test false x y e = cc

in_color_range : (a : ℕ) (b : Bool) → (in_range 0xFF4F 0xFF6B a && b) ≡ true → 0xFF4F ≤ a
in_color_range a b e = ground arith

-- The display's own guard.
gpu_closed :
    (g : Gpu) (a : ℕ)
    → (in_range 0xFF4F 0xFF6B a && not (is_color g.gbmode)) ≡ true
    → GpuRead.rb g a ≡ 0xFF
unfolding GpuRead.rb
gpu_closed g a e =
    let low = in_color_range a (not (is_color g.gbmode)) e in
    skip_test (in_range 0x8000 0x9FFF a) _ _ _ (ground arith) (
      skip_test (in_range 0xFE00 0xFE9F a) _ _ _ (ground arith) (
        skip_test (a == 0xFF40) _ _ _ (ground arith) (
          skip_test (a == 0xFF41) _ _ _ (ground arith) (
            skip_test (a == 0xFF42) _ _ _ (ground arith) (
              skip_test (a == 0xFF43) _ _ _ (ground arith) (
                skip_test (a == 0xFF44) _ _ _ (ground arith) (
                  skip_test (a == 0xFF45) _ _ _ (ground arith) (
                    skip_test (a == 0xFF46) _ _ _ (ground arith) (
                      skip_test (a == 0xFF47) _ _ _ (ground arith) (
                        skip_test (a == 0xFF48) _ _ _ (ground arith) (
                          skip_test (a == 0xFF49) _ _ _ (ground arith) (
                            skip_test (a == 0xFF4A) _ _ _ (ground arith) (
                              skip_test (a == 0xFF4B) _ _ _ (ground arith) (
                                skip_test (a == 0xFF4C) _ _ _ (ground arith) (
                                  skip_test (a == 0xFF4E) _ _ _ (ground arith) (
                                    take_test (in_range 0xFF4F 0xFF6B a && not (is_color g.gbmode))
                                      _ _ e))))))))))))))))

gpu_4c : (g : Gpu) → GpuRead.rb g 0xFF4C ≡ 0xFF
unfolding GpuRead.rb
gpu_4c g = refl

gpu_4e : (g : Gpu) → GpuRead.rb g 0xFF4E ≡ 0xFF
unfolding GpuRead.rb
gpu_4e g = refl

gpu_settled :
    (g : Gpu) (a : ℕ)
    → GpuRead.rb g a ≡ (
        if a == 0xFF4C
        then 0xFF
        else if a == 0xFF4E
        then 0xFF
        else if in_range 0xFF4F 0xFF6B a && not (is_color g.gbmode)
        then 0xFF
        else GpuRead.rb g a)
gpu_settled g a =
    let P = λ (x : ℕ). GpuRead.rb g a ≡ x in
    if_cases P (a == 0xFF4C) _ _ (λ e. ap (GpuRead.rb g) ((==_iff a 0xFF4C).0 e) ∙ gpu_4c g)
      (λ _.
        if_cases P (a == 0xFF4E) _ _ (λ e. ap (GpuRead.rb g) ((==_iff a 0xFF4E).0 e) ∙ gpu_4e g)
          (λ _.
            if_cases P (in_range 0xFF4F 0xFF6B a && not (is_color g.gbmode)) _ _ (gpu_closed g a)
              (λ _. refl)))

settled-IsReading :
    (m : Mmu) (a : ℕ)
    → IsReading m a
        (if a == 0xFF4C
          then 0xFF
          else if a == 0xFF4E
          then 0xFF
          else if in_range 0xFF4F 0xFF6B a && not (is_color m.gpu.gbmode)
          then 0xFF
          else GpuRead.rb m.gpu a)
        (settled (is_color m.gpu.gbmode) a 7)
unfolding settled read_source
settled-IsReading m a =
    choose m a (a == 0xFF4C) _ _ _ _ (record { reads = refl })
      (choose m a (a == 0xFF4E) _ _ _ _ (record { reads = refl })
        (choose m a (in_range 0xFF4F 0xFF6B a && not (is_color m.gpu.gbmode)) _ _ _ _
          (record { reads = refl }) (record { reads = refl })))

from_display : (m : Mmu) (a : ℕ) → read_source m a 7 ≡ GpuRead.rb m.gpu a
unfolding read_source
from_display m a = refl

unsettled : (color : Bool) (a source : ℕ) → (source == 7) ≡ false → settled color a source ≡ source
unfolding settled
unsettled color a source e = rw e

settled_lem :
    (m : Mmu) (a source : ℕ)
    → read_source m a source ≡ read_source m a (settled (is_color m.gpu.gbmode) a source)
settled_lem m a source = elim (Bool-cases (source == 7)) [
  | inl gpu ↦
      subst (λ k. read_source m a k ≡ read_source m a (settled (is_color m.gpu.gbmode) a k))
        (sym ((==_iff source 7).0 gpu))
        (from_display m a ∙ gpu_settled m.gpu a ∙ (settled-IsReading m a).reads)
  | inr other ↦ ap (read_source m a) (sym (unsettled (is_color m.gpu.gbmode) a source other))
]

-- Where both choices lead, at the addresses from 0xFEA0 on.
agree : Bool → Bool → ℕ → Bool
agree color classic i =
    let a = 0xFEA0 + i in
    a == 0xFF46
    || settled color a (peek_source color classic a) == settled color a (rb_source color classic a)

agree_table : (color classic : Bool) → every_below 352 (λ i. agree color classic i) ≡ true
unfolding every_below agree settled peek_source rb_source
agree_table true true = refl
agree_table true false = refl
agree_table false true = refl
agree_table false false = refl

agree_at :
    (color classic : Bool) (a : ℕ)
    → 0xFEA0 ≤ a
    → a < 65536
    → a ≢ 0xFF46
    → settled color a (peek_source color classic a) ≡ settled color a (rb_source color classic a)
unfolding agree
agree_at color classic a low high ne =
    let back : 0xFEA0 + (a - 0xFEA0) ≡ a = omega arith in
    let row =
      every_below_sound 352 (λ i. agree color classic i) (a - 0xFEA0) (agree_table color classic)
        (omega arith) in
    subst
      (λ k.
        (k ≢ 0xFF46)
        → settled color k (peek_source color classic k)
          ≡ settled color k (rb_source color classic k))
      back
      (λ other. sound (0xFEA0 + (a - 0xFEA0) == 0xFF46) _ _ (λ e. other ((==_iff _ _).0 e)) row) ne
  where
    sound : (b : Bool) (x y : ℕ) → (b ≡ true → ⊥) → (b || x == y) ≡ true → x ≡ y
    sound true x y never e = absurd (never refl)
    sound false x y never e = (==_iff x y).0 e

peek_io-eq-rb_io :
    (m : Mmu) (a : ℕ)
    → m.gpu.gbmode ≡ m.gbmode
    → 0xFEA0 ≤ a
    → a < 65536
    → a ≢ 0xFF46
    → peek_io m a ≡ rb_io m a
peek_io-eq-rb_io m a mode low high ne =
    let color = is_color m.gpu.gbmode in
    let classic = is_classic m.gbmode in
    let same = λ (c : Bool).
      read_source m a (settled color a (peek_source c classic a))
      ≡ read_source m a (settled color a (rb_source c classic a)) in
    let agreed : same (is_color m.gbmode) =
      subst same (ap is_color mode) (ap (read_source m a) (agree_at color classic a low high ne)) in
    (peek_io_lem m a).reads
    ∙ settled_lem m a (peek_source (is_color m.gbmode) classic a)
    ∙ agreed
    ∙ sym (settled_lem m a (rb_source (is_color m.gbmode) classic a))
    ∙ sym (rb_io_lem m a).reads

-- `peek` sees what the processor reads, at every address but that of the transfer register, where
-- the memory map and the display are in the same mode.
pub peek-eq-rb :
    (m : Mmu) (a : ℕ) → m.gpu.gbmode ≡ m.gbmode → a < 65536 → a ≢ 0xFF46 → peek m a ≡ rb m a
unfolding peek rb
peek-eq-rb m a mode lt ne = both (in_range 0x0000 0x7FFF a) _ _ _ (λ h0.
    both (in_range 0x8000 0x9FFF a) _ _ _ (λ h1. both (in_range 0xA000 0xBFFF a) _ _ _ (λ h2.
      both (is_wram0 a) _ _ _ (λ h3. both (is_wram1 a) _ _ _ (λ h4.
        both (in_range 0xFE00 0xFE9F a) _ _ _
          (λ h5. peek_io-eq-rb_io m a mode (ground arith) lt ne))))))
  where
    both :
        (b : Bool) (x y z : ℕ) → (b ≡ false → y ≡ z) → (if b then x else y) ≡ (if b then x else z)
    both true x y z h = refl
    both false x y z h = h refl
