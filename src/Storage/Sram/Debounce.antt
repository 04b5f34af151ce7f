-- ===== src/Storage/Sram/Debounce.antt =====
-- The save tracker: a save follows the last write to the RAM by 120 frames.
use gb_os.Base.{ℕ, zero, suc, ◌+◌, ◌<◌, ◌≡◌, inl, inr, refl, ◌∙◌, Bool, true, false, arith}
use gb_os.Base.{leb, if◌then◌else◌, Bool-cases}
use gb_os.GameBoy.Mbc.Cart.{Cart, is_battery_backed, check_and_reset_ram_updated}
use gb_os.GameBoy.Mbc.Cart.Saves.{check_clears}
use gb_os.GameBoy.Mbc.Cart.{mbc0, mbc1, mbc2, mbc3, mbc5}
use gb_os.GameBoy.Mbc.Mbc0
use gb_os.GameBoy.Mbc.Mbc1
use gb_os.GameBoy.Mbc.Mbc2
use gb_os.GameBoy.Mbc.Mbc3
use gb_os.GameBoy.Mbc.Mbc5
use gb_os.Storage.Sram.{SaveTracker, save_debounce_frames, new, tick}

-- `n` frames without a write, from the tracker and cartridge given: did one of them ask for a save?
unfoldable pub quiet_frames : ℕ → SaveTracker → Cart → Bool × (SaveTracker × Cart)
quiet_frames zero t c = (false, (t, c))
quiet_frames (suc n) t c =
    let (due, rest) = tick t c in
    let (later, last) = quiet_frames n rest.0 rest.1 in (if due then true else later, last)

-- The tracker counts below 120 frames.
pub record IsTracker (t : SaveTracker) : Type 0 where
  pub bound : t.frames_since_write < save_debounce_frames

pub new-IsTracker : IsTracker new
unfolding new
new-IsTracker = record { bound = omega arith }

pub tick-IsTracker : (t : SaveTracker) (c : Cart) → IsTracker t → IsTracker (tick t c).1.0
unfolding tick
tick-IsTracker t c v = ground (arith, v.bound)

check-is_battery_backed :
    (c : Cart) → is_battery_backed ((check_and_reset_ram_updated c).1) ≡ is_battery_backed c
unfolding is_battery_backed check_and_reset_ram_updated Mbc0.check_and_reset_ram_updated
    Mbc1.check_and_reset_ram_updated Mbc2.check_and_reset_ram_updated
    Mbc3.check_and_reset_ram_updated Mbc5.check_and_reset_ram_updated Mbc0.is_battery_backed
    Mbc1.is_battery_backed Mbc2.is_battery_backed Mbc3.is_battery_backed Mbc5.is_battery_backed
check-is_battery_backed (mbc0 m) = refl
check-is_battery_backed (mbc1 m) = refl
check-is_battery_backed (mbc2 m) = refl
check-is_battery_backed (mbc3 m) = refl
check-is_battery_backed (mbc5 m) = refl

-- A pending save with `f` quiet frames behind it is due within `n` more when they make 120.
pending_due :
    (n : ℕ) (t : SaveTracker) (c : Cart)
    → t.frames_since_write < save_debounce_frames
    → t.pending_save ≡ true
    → is_battery_backed c ≡ true
    → (check_and_reset_ram_updated c).0 ≡ false
    → (quiet_frames n t c).0 ≡ leb save_debounce_frames (t.frames_since_write + n)
unfolding quiet_frames tick
pending_due zero t c lt pending battery clear = ground arith
pending_due (suc n) t c lt pending battery clear =
    let t' : SaveTracker = record t { frames_since_write = t.frames_since_write + 1 } in
    let c' = (check_and_reset_ram_updated c).1 in
    elim (Bool-cases (leb save_debounce_frames (t.frames_since_write + 1))) [
      | inl now ↦ ground arith
      | inr later ↦
          let lt' : t.frames_since_write + 1 < save_debounce_frames = ground arith in
          ground (
            arith,
            pending_due n t' c' lt' pending (check-is_battery_backed c ∙ battery)
                ((check_clears c).0),
          )
    ]

-- With a battery, the frame that notices a write asks for no save; of the frames without a write that follow it,
-- one of the first `n` asks for a save exactly when `n` is at least 120.
pub save_due :
    (t : SaveTracker) (c : Cart) (n : ℕ)
    → is_battery_backed c ≡ true
    → (check_and_reset_ram_updated c).0 ≡ true
    → let (due, rest) = tick t c in
      (due ≡ false) × ((quiet_frames n rest.0 rest.1).0 ≡ leb save_debounce_frames n)
unfolding tick
save_due t c n battery updated =
    let t' : SaveTracker = record { frames_since_write = 0; pending_save = true } in
    let c' = (check_and_reset_ram_updated c).1 in
    ground (
      arith,
      pending_due n t' c' (omega arith) refl (check-is_battery_backed c ∙ battery)
          ((check_clears c).0),
    )
