-- ===== src/Mm/Pmm/Flags.antt =====
-- The free flag of a frame under the operations that set and clear it.
use gb_os.Base.{◌≡◌, true, false, bit_and, bit_or, arith}
use gb_os.Base.Bits.{and_mask, and_digit, or_digit}
use gb_os.Mm.Pmm.{PageFrame, is_free, allocate, free}

pub is_free-allocate : (f : PageFrame) → is_free (allocate f) ≡ false
unfolding is_free allocate
is_free-allocate f = ground (arith, and_mask 1 (bit_and f.flags 0xFFFE), and_digit f.flags 0xFFFE)

pub is_free-free : (f : PageFrame) → is_free (free f) ≡ true
unfolding is_free free
is_free-free f = ground (arith, and_mask 1 (bit_or f.flags 1), or_digit f.flags 1)
