-- ===== src/GameBoy/Mmu/Write/Copied.antt =====
-- The bytes that transfers to video memory copy (`perform_vramdma_row` and `perform_gdma` of
-- kernel/src/gameboy/mmu.rs): memory below 0xFE00 before and after.
use gb_os.Base.{
  ℕ, zero, suc, ◌+◌, ◌-◌, ◌*◌, ◌%◌, ◌≤◌, ◌<◌, ◌≡◌, ◌≢◌, refl, sym, ap, ◌∙◌, ◌⊎◌, inl, inr, bit_and,
  bit_or, true, false, ◌&&◌, arith,
}
use gb_os.Base.{◌==◌, ltb, leb, if◌then◌else◌, length, get_or, set, length-set, get_or-set}
use gb_os.Base.{Bool-cases}
use mathlib.Core.Path.{subst}
use gb_os.Base.Word.{u16}
use gb_os.Base.Bits.{and_mask, or_fields}
use gb_os.GameBoy.Gpu.Read as GpuRead
use gb_os.GameBoy.Gpu.Write as GpuWrite
use gb_os.GameBoy.Mmu.{Mmu, DmaType, rb}
use gb_os.GameBoy.Mmu.Write.Cycle.{row_loop, perform_vramdma_row}

-- Video memory has its two banks, and one is selected.
pub record HasVideo (m : Mmu) : Type 0 where
  pub video_size : length m.gpu.vram ≡ 0x4000
  pub video_bank : m.gpu.vrambank ≤ 1

-- `n` addresses from `s` on are outside of video memory and of the registers.
abbrev pub IsSource : ℕ → ℕ → Type 0
IsSource s n = (s + n ≤ 0x8000) ⊎ ((0xA000 ≤ s) × (s + n ≤ 0xFE00))

-- `n` addresses from `d` on are in video memory.
abbrev pub IsTarget : ℕ → ℕ → Type 0
IsTarget d n = (0x8000 ≤ d) × (d + n ≤ 0xA000)

abbrev video_slot : Mmu → ℕ → ℕ
video_slot m a = m.gpu.vrambank * 8192 + a % 8192

video_slot_lem :
    (m : Mmu) (a : ℕ) → bit_or (m.gpu.vrambank * 0x2000) (bit_and a 0x1FFF) ≡ video_slot m a
video_slot_lem m a =
    ap (λ k. bit_or (m.gpu.vrambank * 8192) k) (and_mask 13 a)
    ∙ or_fields 13 m.gpu.vrambank (a % 8192) (omega arith)

-- One byte put into video memory.
abbrev put : Mmu → ℕ → ℕ → Mmu
put m d b = record m { gpu = GpuWrite.wb m.gpu d b }

rb_video : (m : Mmu) (a : ℕ) → IsTarget a 1 → rb m a ≡ get_or m.gpu.vram (video_slot m a) 0
unfolding rb GpuRead.rb
rb_video m a h = ground (arith, video_slot_lem m a)

put_video :
    (m : Mmu) (d b : ℕ)
    → IsTarget d 1
    → put m d b ≡ record m { gpu = record (m.gpu) { vram = set m.gpu.vram (video_slot m d) b } }
unfolding GpuWrite.wb
put_video m d b h = ground (arith, video_slot_lem m d)

put-HasVideo : (m : Mmu) (d b : ℕ) → HasVideo m → IsTarget d 1 → HasVideo (put m d b)
put-HasVideo m d b h t = subst HasVideo (sym (put_video m d b t)) (record {
  video_size = length-set m.gpu.vram (video_slot m d) b ∙ h.video_size;
  video_bank = h.video_bank;
})

rb-put_same_bank :
    (m : Mmu) (d b a : ℕ)
    → HasVideo m
    → IsTarget d 1
    → IsTarget a 1
    → rb (put m d b) a ≡ (if a == d then b else rb m a)
rb-put_same_bank m d b a h t q =
    let bytes = set m.gpu.vram (video_slot m d) b in
    let same : (video_slot m d == video_slot m a) ≡ (a == d) = ground arith in
    ap (λ s. rb s a) (put_video m d b t)
    ∙ rb_video (record m { gpu = record (m.gpu) { vram = bytes } }) a q
    ∙ get_or-set m.gpu.vram (video_slot m d) (video_slot m a) b 0
        (omega (arith, h.video_size, h.video_bank))
    ∙ ap (λ k. if k then b else get_or m.gpu.vram (video_slot m a) 0) same
    ∙ ap (λ k. if a == d then b else k) (sym (rb_video m a q))

-- Outside of video memory and of the registers, the display is not asked.
rb-put_outside : (m : Mmu) (d b a : ℕ) → IsSource a 1 → rb (put m d b) a ≡ rb m a
unfolding rb
rb-put_outside m d b a (inl q) = ground arith
rb-put_outside m d b a (inr q) = ground arith

-- The two parts of the memory below the registers.
part_of : (a : ℕ) → a < 0xFE00 → IsSource a 1 ⊎ IsTarget a 1
part_of a h = elim (Bool-cases (ltb a 0x8000)) [
  | inl rom ↦ inl (inl (ground arith))
  | inr above ↦ elim (Bool-cases (ltb a 0xA000)) [
    | inl video ↦ inr (ground arith)
    | inr ram ↦ inl (inr (ground arith))
  ]
]

rb-put :
    (m : Mmu) (d b a : ℕ)
    → HasVideo m
    → IsTarget d 1
    → a < 0xFE00
    → rb (put m d b) a ≡ (if a == d then b else rb m a)
rb-put m d b a h t q = elim (part_of a q) [
  | inl outside ↦ rb-put_outside m d b a outside ∙ other_place outside
  | inr video ↦ rb-put_same_bank m d b a h t video
]
  where
    other_place : IsSource a 1 → rb m a ≡ (if a == d then b else rb m a)
    other_place (inl p) = ground arith
    other_place (inr p) = ground arith

-- What memory below the registers reads after `n` bytes are copied from `s` to `d`.
abbrev pub copied : Mmu → ℕ → ℕ → ℕ → ℕ → ℕ
copied m s d n a = if leb d a && ltb a (d + n) then rb m (s + (a - d)) else rb m a

pub IsSource-part : (s n k l : ℕ) → k + l ≤ n → IsSource s n → IsSource (s + k) l
IsSource-part s n k l le (inl p) = inl (omega arith)
IsSource-part s n k l le (inr p) = inr (omega (arith, p.0), omega (arith, p.1))

pub source_below : (s n : ℕ) → 0 < n → IsSource s n → s < 0xFE00
source_below s n some_byte (inl p) = omega arith
source_below s n some_byte (inr p) = omega (arith, p.1)

source_apart : (s n d : ℕ) → IsSource s (suc n) → IsTarget d 1 → s ≢ d
source_apart s n d (inl p) t e = omega (arith, t.0)
source_apart s n d (inr p) t e = omega (arith, t.1, p.0)

-- A byte of the source is not changed when one is put into video memory.
rb-put_source :
    (m : Mmu) (d b s n k : ℕ)
    → IsSource s n
    → IsTarget d 1
    → k < n
    → rb (put m d b) (s + k) ≡ rb m (s + k)
rb-put_source m d b s n k src t lt =
    rb-put_outside m d b (s + k) (IsSource-part s n k 1 (omega arith) src)

copied_next :
    (m : Mmu) (s d n a : ℕ)
    → HasVideo m
    → IsSource s (suc n)
    → IsTarget d (suc n)
    → a < 0xFE00
    → copied (put m d (rb m s)) (s + 1) (d + 1) n a ≡ copied m s d (suc n) a
copied_next m s d n a h src dst q =
    let b = rb m s in
    let here : IsTarget d 1 = (dst.0, omega (arith, dst.1)) in
    let old = rb-put m d b a h here q in
    elim (Bool-cases (leb (d + 1) a && ltb a (d + 1 + n))) [
      | inl behind ↦
          let k = a - d in
          let lt : k < suc n = ground arith in
          let at : s + 1 + (a - (d + 1)) ≡ s + k = ground arith in
          let kept = rb-put_source m d b s (suc n) k src here lt in
          let inside : (leb d a && ltb a (d + suc n)) ≡ true = ground arith in
          rw (behind, inside, at) kept
      | inr out ↦ rw out (old ∙ first out)
    ]
  where
    first :
        (leb (d + 1) a && ltb a (d + 1 + n)) ≡ false
        → (if a == d then rb m s else rb m a) ≡ copied m s d (suc n) a
    first out = elim (Bool-cases (a == d)) [
      | inl same ↦
          let inside : (leb d a && ltb a (d + suc n)) ≡ true = ground arith in
          let at : s + (a - d) ≡ s = ground arith in rw (same, inside, at) refl
      | inr other ↦
          let outside : (leb d a && ltb a (d + suc n)) ≡ false = ground arith in
          rw (other, outside) refl
    ]

-- The `n` bytes of a row from offset `j` on.
rb-row_loop :
    (n j : ℕ) (m : Mmu) (a : ℕ)
    → HasVideo m
    → IsSource (m.hdma_src + j) n
    → IsTarget (m.hdma_dst + j) n
    → a < 0xFE00
    → HasVideo (row_loop m n j)
      × rb (row_loop m n j) a ≡ copied m (m.hdma_src + j) (m.hdma_dst + j) n a
unfolding row_loop
rb-row_loop zero j m a h src dst q = (h, ground arith)
rb-row_loop (suc n) j m a h src dst q =
    let s = m.hdma_src + j in
    let d = m.hdma_dst + j in
    let here : IsTarget d 1 = (dst.0, omega (arith, dst.1)) in
    let m' = put m d (rb m s) in
    let s_next : m.hdma_src + (j + 1) ≡ s + 1 = omega arith in
    let d_next : m.hdma_dst + (j + 1) ≡ d + 1 = omega arith in
    let src' =
      subst (λ k. IsSource k n) (sym s_next) (IsSource-part s (suc n) 1 n (omega arith) src) in
    let (video, rest) =
      rb-row_loop n (j + 1) m' a (put-HasVideo m d (rb m s) h here) src'
        (omega (arith, dst.0), omega (arith, dst.1)) q in
    let s_word : u16 s ≡ s = omega (arith, source_below s (suc n) (omega arith) src) in
    let d_word : u16 d ≡ d = omega (arith, dst.1) in
    let after : ℕ → ℕ → Mmu = λ x y. row_loop (put m x (rb m y)) n (j + 1) in
    let After : ℕ → ℕ → Type 0 =
      λ x y. HasVideo (after x y) × rb (after x y) a ≡ copied m s d (suc n) a in
    subst (λ x. After x (u16 s)) (sym d_word)
      (subst (λ y. After d y) (sym s_word)
        (
          video,
          rest
              ∙ ap (λ k. copied m' k (m.hdma_dst + (j + 1)) n a) s_next
              ∙ ap (λ k. copied m' (s + 1) k n a) d_next
              ∙ copied_next m s d n a h src dst q,
        ))

-- Memory below the registers does not hang on the registers of a transfer.
rb_same :
    (m : Mmu) (src dst len a : ℕ)
    → a < 0xFE00
    → rb (record m { hdma_src = src; hdma_dst = dst; hdma_len = len }) a ≡ rb m a
unfolding rb
rb_same m src dst len a q = ground arith

pub rb_status :
    (m : Mmu) (status : DmaType) (a : ℕ)
    → a < 0xFE00
    → rb (record m { hdma_status = status }) a ≡ rb m a
unfolding rb
rb_status m status a q = ground arith

-- A row.
pub rb-perform_vramdma_row :
    (m : Mmu) (a : ℕ)
    → HasVideo m
    → IsSource m.hdma_src 16
    → IsTarget m.hdma_dst 16
    → a < 0xFE00
    → HasVideo (perform_vramdma_row m)
      × rb (perform_vramdma_row m) a ≡ copied m m.hdma_src m.hdma_dst 16 a
unfolding perform_vramdma_row
rb-perform_vramdma_row m a h src dst q =
    let c = row_loop m 0x10 0 in
    let start : m.hdma_src + 0 ≡ m.hdma_src = omega arith in
    let end : m.hdma_dst + 0 ≡ m.hdma_dst = omega arith in
    let (video, read) =
      rb-row_loop 0x10 0 m a h (subst (λ k. IsSource k 16) (sym start) src)
        (omega (arith, dst.0), omega (arith, dst.1)) q in
    (
      record { video_size = video.video_size; video_bank = video.video_bank },
      rb_same c (u16 (c.hdma_src + 0x10)) (u16 (c.hdma_dst + 0x10))
            (if c.hdma_len == 0 then 0x7F else c.hdma_len - 1) a q
          ∙ read
          ∙ ap (λ k. copied m k (m.hdma_dst + 0) 16 a) start
          ∙ ap (λ k. copied m m.hdma_src k 16 a) end,
    )

-- A byte of the source is none of a target's.
copied_source :
    (m : Mmu) (s d k N n e : ℕ)
    → IsSource s N
    → IsTarget d n
    → k < N
    → copied m e d n (s + k) ≡ rb m (s + k)
copied_source m s d k N n e (inl p) q lt = ground (arith, q.0)
copied_source m s d k N n e (inr p) q lt = ground (arith, p.0, q.1)

-- `n` bytes more, after the first row.
pub copied_more :
    (m r : Mmu) (s d n a : ℕ)
    → ((b : ℕ) → b < 0xFE00 → rb r b ≡ copied m s d 16 b)
    → IsSource s (16 + n)
    → IsTarget d (16 + n)
    → a < 0xFE00
    → copied r (s + 16) (d + 16) n a ≡ copied m s d (16 + n) a
copied_more m r s d n a row src dst q = elim (Bool-cases (leb (d + 16) a && ltb a (d + 16 + n))) [
  | inl behind ↦
      let k = a - d in
      let lt : k < 16 + n = ground arith in
      let at : s + 16 + (a - (d + 16)) ≡ s + k = ground arith in
      let inside : (leb d a && ltb a (d + (16 + n))) ≡ true = ground arith in
      let first : IsTarget d 16 = (dst.0, omega (arith, dst.1)) in
      rw (behind, inside, at)
        (row (s + k) (source_lt s (16 + n) k src lt)
          ∙ copied_source m s d k (16 + n) 16 s src first lt)
  | inr out ↦ rw out (row a q ∙ same out)
]
  where
    source_lt : (s N k : ℕ) → IsSource s N → k < N → s + k < 0xFE00
    source_lt s N k (inl p) lt = omega arith
    source_lt s N k (inr p) lt = omega (arith, p.1)

    same :
        (leb (d + 16) a && ltb a (d + 16 + n)) ≡ false → copied m s d 16 a ≡ copied m s d (16 + n) a
    same out =
        let range : (leb d a && ltb a (d + 16)) ≡ (leb d a && ltb a (d + (16 + n))) =
          ground arith in
        ap (λ k. if k then rb m (s + (a - d)) else rb m a) range
