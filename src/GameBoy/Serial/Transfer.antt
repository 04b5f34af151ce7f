-- ===== src/GameBoy/Serial/Transfer.antt =====
-- A transfer with no partner runs for 4096 cycles and then receives 0xFF.
use gb_os.Base.{ℕ, ◌+◌, ◌-◌, ◌<◌, ◌≤◌, ◌≡◌, bit_and, bit_or, true, false, List, [], ◌∷◌, arith}
use gb_os.GameBoy.Serial.{Serial, wb, do_cycle}

abbrev total : List ℕ → ℕ
total [] = 0
total (x ∷ xs) = x + total xs

-- The calls of `do_cycle` with these cycle counts, in order.
advance : Serial → List ℕ → Serial
advance s [] = s
advance s (x ∷ xs) = advance (do_cycle s x) xs

advance_early :
    (xs : List ℕ) (s : Serial)
    → s.transferring ≡ true
    → total xs < s.cycles
    → advance s xs ≡ record s { cycles = s.cycles - total xs }
unfolding advance do_cycle
advance_early [] s on h = ground arith
advance_early (x ∷ xs) s on h =
    ground (arith, advance_early xs (record s { cycles = s.cycles - x }))

-- Once started by a write with bits 7 and 0 set, the port counts the cycles it is given, changes
-- nothing else while their sum is below 4096, and with the step that reaches 4096 receives 0xFF,
-- clears bit 7 of its control register and raises its interrupt.
transfer_completes :
    (s : Serial) (value last : ℕ) (xs : List ℕ)
    → bit_and value 0x81 ≡ 0x81
    → total xs < 4096
    → 4096 ≤ total xs + last
    → let started = wb s 0xFF02 value in
      (advance started xs ≡ record started { cycles = 4096 - total xs })
      × (do_cycle (advance started xs) last ≡ record started {
        transfer_data = 0xFF;
        control = bit_and value 0x7F;
        interrupt = bit_or s.interrupt 0x08;
        transferring = false;
        cycles = 4096 - total xs;
      })
unfolding wb do_cycle
transfer_completes s value last xs start early late =
    let started : Serial = record s { control = value; transferring = true; cycles = 4096 } in
    ground (arith, advance_early xs started)
