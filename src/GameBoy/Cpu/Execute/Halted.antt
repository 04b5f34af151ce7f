-- ===== src/GameBoy/Cpu/Execute/Halted.antt =====
-- A halted processor (`do_cycle`, `handle_interrupts` and `update_ime` of
-- kernel/src/gameboy/cpu.rs): it waits until an enabled interrupt is requested.
use gb_os.Base.{ℕ, zero, suc, ◌≡◌, ◌≢◌, refl, ap, ◌∙◌, bit_and, Bool, true, false, arith}
use gb_os.Base.{◌==◌, if◌then◌else◌}
use gb_os.GameBoy.Cpu.{Bus, Cpu, update_ime, handle_interrupts}
use gb_os.GameBoy.Cpu.Execute.{execute, do_cycle}

module _ (bus : Bus) where
  -- A run of the processor.
  abbrev pub cycles : ℕ → Cpu bus → Cpu bus
  cycles zero c = c
  cycles (suc n) c = cycles n (do_cycle bus c).1

  -- The rest of the machine after `n` pauses of four ticks.
  abbrev pub passed : ℕ → bus.State → bus.State
  passed zero s = s
  passed (suc n) s = passed n (bus.do_cycle s 4).1

  abbrev pub requested : bus.State → ℕ
  requested s = bit_and (bus.inte s) (bus.intf s)

  -- No enabled interrupt is requested before any of the `n` pauses.
  abbrev pub IsQuiet : ℕ → bus.State → Type 0
  IsQuiet zero s = Unit
  IsQuiet (suc n) s = (requested s ≡ 0) × IsQuiet n (bus.do_cycle s 4).1

  -- No `EI` or `DI` waits to take effect.
  pub record IsSettled (c : Cpu bus) : Type 0 where
    pub no_di : c.setdi ≡ 0
    pub no_ei : c.setei ≡ 0

  update_ime_settled : (c : Cpu bus) → IsSettled c → update_ime bus c ≡ c
  unfolding update_ime
  update_ime_settled c h = ground (arith, h)

  quiet_pause :
      (c : Cpu bus) → c.halted ≡ true → requested c.mmu ≡ 0 → handle_interrupts bus c ≡ (0, c)
  unfolding handle_interrupts
  quiet_pause c halted quiet = ground arith

  wakes :
      (c : Cpu bus)
      → c.halted ≡ true
      → c.ime ≡ false
      → requested c.mmu ≢ 0
      → handle_interrupts bus c ≡ (0, record c { halted = false })
  unfolding handle_interrupts
  wakes c halted off some_bit = ground arith

  -- What a step does after the interrupts, where none is taken.
  abbrev ran_on : Cpu bus → ℕ × Cpu bus
  ran_on c =
      let (ran, c2) = if c.halted then (4, c) else execute bus c in
      let (ticks, s) = bus.do_cycle c2.mmu ran in (ticks, record c2 { mmu = s })

  abbrev after_interrupts : ℕ × Cpu bus → ℕ × Cpu bus
  after_interrupts r =
      if r.0 == 0
      then ran_on r.1
      else (let (ticks, s) = bus.do_cycle r.1.mmu r.0 in (ticks, record (r.1) { mmu = s }))

  do_cycle_untaken :
      (c c1 : Cpu bus)
      → IsSettled c
      → handle_interrupts bus c ≡ (0, c1)
      → do_cycle bus c ≡ ran_on c1
  unfolding do_cycle
  do_cycle_untaken c c1 h e =
      ap (λ k. after_interrupts (handle_interrupts bus k)) (update_ime_settled c h)
      ∙ ap after_interrupts e

  pauses :
      (c : Cpu bus)
      → c.halted ≡ true
      → IsSettled c
      → requested c.mmu ≡ 0
      → (do_cycle bus c).1 ≡ record c { mmu = (bus.do_cycle c.mmu 4).1 }
  pauses c halted h quiet =
      ap (λ r. r.1) (do_cycle_untaken c c h (quiet_pause c halted quiet))
      ∙ ap (λ b. paused b) halted
    where
      paused : Bool → Cpu bus
      paused b =
          let (ran, c2) = if b then (4, c) else execute bus c in
          let (ticks, s) = bus.do_cycle c2.mmu ran in record c2 { mmu = s }

  cycles_quiet :
      (n : ℕ) (c : Cpu bus)
      → c.halted ≡ true
      → IsSettled c
      → IsQuiet n c.mmu
      → cycles n c ≡ record c { mmu = passed n c.mmu }
  cycles_quiet zero c halted h quiet = refl
  cycles_quiet (suc n) c halted h quiet =
      ap (cycles n) (pauses c halted h quiet.0)
      ∙ cycles_quiet n (record c { mmu = (bus.do_cycle c.mmu 4).1 }) halted
          (record { no_di = h.no_di; no_ei = h.no_ei }) quiet.1

  -- The step of a processor that goes on with the next instruction.
  abbrev pub resumed : Cpu bus → ℕ × Cpu bus
  resumed c =
      let (ran, c2) = execute bus (record c { halted = false }) in
      let (ticks, s) = bus.do_cycle c2.mmu ran in (ticks, record c2 { mmu = s })

  -- A halted processor with interrupts disabled, and with no `EI` or `DI` waiting, does nothing but
  -- let four ticks pass in each step as long as no enabled interrupt is requested; in the first step
  -- that finds one requested, it runs the next instruction, without taking the interrupt.
  pub halted_until_request :
      (n : ℕ) (c : Cpu bus)
      → c.halted ≡ true
      → c.ime ≡ false
      → IsSettled c
      → IsQuiet n c.mmu
      → requested (passed n c.mmu) ≢ 0
      → (cycles n c ≡ record c { mmu = passed n c.mmu })
        × (do_cycle bus (cycles n c) ≡ resumed (record c { mmu = passed n c.mmu }))
  halted_until_request n c halted off h quiet some_bit =
      let waited : Cpu bus = record c { mmu = passed n c.mmu } in
      let same = cycles_quiet n c halted h quiet in
      let settled : IsSettled waited = record { no_di = h.no_di; no_ei = h.no_ei } in
      (
        same,
        ap (do_cycle bus) same
            ∙ do_cycle_untaken waited (record waited { halted = false }) settled
                (wakes waited halted off some_bit),
      )
