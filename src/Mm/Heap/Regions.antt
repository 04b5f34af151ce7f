-- ===== src/Mm/Heap/Regions.antt =====
-- The regions that the heap hands out: aligned, inside the heap, and one after the other.
use gb_os.Base.{
  ℕ, ◌+◌, ◌-◌, ◌%◌, ◌^◌, ◌<◌, ◌≤◌, ◌≡◌, Option, none, some, List, [], ◌∷◌, inl, inr, arith,
}
use gb_os.Base.{ltb, Bool-cases}
use gb_os.Base.Bits.{clear_low}
use native.Mathlib.Nat.{one-le-pow}
use gb_os.Mm.Heap.{Layout, SimpleBumpAllocator, heap_start, heap_end, new, align_up, alloc}

-- What Rust promises of a layout: the alignment is a power of two, and the size, rounded up to it,
-- is below 2^31.
pub record IsLayout (l : Layout) : Type 0 where
  pub shift : ℕ
  pub power : l.align ≡ 2 ^ shift
  pub word : shift < 32
  pub size : l.size + l.align ≤ 2 ^ 31

-- Rounding up to a multiple.
round_up :
    (n d : ℕ)
    → 0 < d
    → (n ≤ n + d - 1 - (n + d - 1) % d)
      × (n + d - 1 - (n + d - 1) % d < n + d)
      × ((n + d - 1 - (n + d - 1) % d) % d ≡ 0)
round_up n d pos = (grind arith, grind arith, grind arith)

align_up_lem :
    (addr k : ℕ)
    → k ≤ 32
    → addr + 2 ^ k ≤ 2 ^ 32
    → align_up addr (2 ^ k) ≡ addr + 2 ^ k - 1 - (addr + 2 ^ k - 1) % 2 ^ k
unfolding align_up
align_up_lem addr k le small =
    let pos = one-le-pow k 2 in
    let wrapped : (addr + 2 ^ k + 2 ^ 32 - 1) % 2 ^ 32 ≡ addr + 2 ^ k - 1 = omega arith in
    let mask : 2 ^ 32 - 1 - (2 ^ k - 1) ≡ 2 ^ 32 - 2 ^ k = omega arith in
    rw (wrapped, mask) (clear_low k 32 (addr + 2 ^ k - 1) le (omega arith))

-- Requests in order, each with the address that it was given, if any.
unfoldable pub serve : SimpleBumpAllocator → List Layout → List (Layout × Option ℕ)
unfolding alloc
serve h [] = []
serve h (l ∷ ls) = let (given, h') = alloc h l in (l, given) ∷ serve h' ls

-- From `low` on, each region begins at a multiple of its alignment, at or after the end of the one
-- before it, and ends inside the heap.
abbrev pub Fits : ℕ → List (Layout × Option ℕ) → Type 0
Fits low [] = Unit {0}
Fits low ((l, none) ∷ rs) = Fits low rs
Fits low ((l, some s) ∷ rs) =
    (low ≤ s) × (s % l.align ≡ 0) × (s + l.size ≤ heap_end) × Fits (s + l.size) rs

abbrev pub AreLayouts : List Layout → Type 0
AreLayouts [] = Unit {0}
AreLayouts (l ∷ ls) = IsLayout l × AreLayouts ls

-- Where an allocation begins.
aligned :
    (h : SimpleBumpAllocator) (l : Layout)
    → IsLayout l
    → h.next ≤ heap_end
    → (h.next ≤ align_up h.next l.align)
      × (align_up h.next l.align < h.next + l.align)
      × (align_up h.next l.align % l.align ≡ 0)
aligned h l is le = rw (is.power) (
    rw (align_up_lem h.next is.shift (omega (arith, is.word)) (omega (arith, is.power, is.size)))
      (round_up h.next (2 ^ is.shift) (omega (arith, one-le-pow is.shift 2))))

serve-Fits_from :
    (h : SimpleBumpAllocator) (ls : List Layout)
    → AreLayouts ls
    → h.next ≤ heap_end
    → Fits h.next (serve h ls)
unfolding serve alloc
serve-Fits_from h [] is le = tt
serve-Fits_from h (l ∷ ls) is le =
    let (above, below, multiple) = aligned h l is.0 le in
    let exact : (align_up h.next l.align + l.size) % 2 ^ 32 ≡ align_up h.next l.align + l.size =
      omega (arith, is.0.size) in
    rw exact (elim (Bool-cases (ltb heap_end (align_up h.next l.align + l.size))) [
      | inl full ↦ rw full (serve-Fits_from h ls is.1 le)
      | inr room ↦ rw room (
        above,
        multiple,
        ground arith,
        serve-Fits_from (record { next = align_up h.next l.align + l.size }) ls is.1 (ground arith),
      )
    ])

-- Whatever is asked for, from a new heap on: the regions that are handed out lie in the heap, each
-- begins at a multiple of its alignment, and none overlaps another.
pub serve-Fits : (ls : List Layout) → AreLayouts ls → Fits heap_start (serve new ls)
unfolding new
serve-Fits ls is = serve-Fits_from new ls is (omega arith)
