-- ===== src/Lib.antt =====
-- A verification of parts of the gb-os kernel: the Game Boy emulator, with its processor, memory map,
-- display, peripherals and cartridges, the saved games on disk, and the kernel's memory management,
-- scheduler and event chains, and what the overlay beside the picture draws again.
--
-- How the program fits together. A cartridge image is given to `get_mbc`, which picks one of five
-- bank controllers by a byte of the header. The processor reads and writes through the memory map,
-- which sends an address to the cartridge, the timer, the serial port, the keypad or the graphics
-- unit, and collects their interrupt flags. Each frame the save tracker asks the cartridge whether
-- its RAM was written; when writes have settled, the RAM goes to one of sixteen slots on the disk,
-- and it is read back when the cartridge is inserted again. Below the emulator, intrusive lists carry
-- the free pages of the page allocator and the run queues of the scheduler; event chains are the
-- kernel's frame for calls that pass through permission checks and retries.
--
-- Base: numbers, lists, wrap-around at a width, and the laws of the bit operations. A byte or word
--   of the source is a natural number; its wrap-around is written out, and where a property needs
--   the range of a value, an invariant states it.
-- GameBoy.Result, GameBoy.Mode: kernel/src/gameboy/mod.rs and gbmode.rs.
-- GameBoy.Mbc: kernel/src/gameboy/mbc/. Header has the bank counts and the checksum; Mbc0, Mbc1,
--   Mbc2, Mbc3 and Mbc5 are the files of the same names, with a record for each struct and a
--   function for each method (`&mut self` is a state in and a state out, a `StrResult` is `ok` or
--   `err`); Cart is the trait object, with `get_mbc` and `romname`. Cart.Invariant has the steps that
--   can change a cartridge and the states they reach. Indexing past the end is the source's
--   `get(..).unwrap_or(..)`, with its default; plain indexing is in range by the invariants.
-- GameBoy.Register: kernel/src/gameboy/register.rs.
-- GameBoy.Alu: the `alu_` functions of kernel/src/gameboy/cpu.rs, on the registers alone.
-- GameBoy.Cpu: the rest of that file. The memory map is the parameter `Bus`: reading, writing, the
--   two interrupt registers, the speed switch and the hardware's cycle. Opcodes has the arms of
--   `execute` as six tables by opcode, written in the shapes of Action; Execute looks an opcode up
--   and has `do_cycle`; Prefixed has the instructions behind 0xCB. Sound is the interface that the
--   range of an instruction's results asks of a bus, and Stack the one that the stack asks of it.
-- GameBoy.Gpu: kernel/src/gameboy/gpu.rs. Read and Write have the registers, Cycle the modes and
--   lines, Render and Render.Sprites one line of the picture. `wy_pos` and a sprite's place, which
--   may be negative in the source, are kept with an offset. The loop of `do_cycle` has its number of
--   ticks as fuel, and each round takes at least one.
-- GameBoy.Mmu: kernel/src/gameboy/mmu.rs. Mmu has the state and `rb`, Write has `wb` and the two
--   transfers that registers start, Write.Cycle the transfer to video memory and the hardware's
--   cycle, with the bytes it copies in Write.Copied, New the constructors, Peek the reads for the overlay. Sums of addresses in the transfer
--   wrap, as they do in a release build.
-- GameBoy.Device: kernel/src/gameboy/device.rs, and the constructors of the processor, on the memory
--   map as the bus. Device.Ram shows that this bus is a store for the stack.
-- GameBoy.Timer, Serial, Keypad, Input: the files of the same names in kernel/src/gameboy/; the key
--   codes of Input are those of kernel/src/drivers/keyboard.rs.
-- Storage.SaveHeader, SaveFile, Sram: kernel/src/storage/savefile.rs. The disk is the parameter
--   `Disk` (is there one, read a sector, write a sector); `IsDisk` says what a working disk does.
--
-- Mm.Intrusive: kernel/src/mm/intrusive.rs. A node is found by the address of its object, so one store
--   of nodes carries all lists of a kind; Links says what it is for nodes to stand in an order, Effects
--   and Refines what each operation does to it.
-- Mm.BootInfo, Pmm, Heap, Info: kernel/src/boot_info.rs (the entries of the memory map), mm/pmm.rs,
--   mm/heap.rs and mm/mod.rs. A page frame is its index in the source's array. Pmm.Init has the free
--   list that a map leads to, Pmm.Ledger the calls of the allocator with the pages that callers hold.
-- Sched: kernel/src/sched/mod.rs. A task is its address; the switch itself is assembly, and the pair of
--   tasks that it is given is part of the result.
-- EventChains: kernel/src/event_chains/. Value and Context are the store, Result the results, Chain the
--   chains, Middleware the built-in middleware. An event or a middleware is a function on the store;
--   what else it does is not seen. Chain.Trace has the reading of a chain over lists.
-- Overlay: kernel/src/overlay/dirty_region.rs. The cache of what was drawn, the flags of what changed
--   (Frames), and the rectangles to clear (Rects).
--
-- Loops over a range are recursion on the number of rounds left, so every function is total and no
-- bound was chosen; the loops that leave early keep the source's number of rounds (16 slots, 8 bits,
-- 0x19 header bytes, 11 or 16 characters of a title).
--
-- Not modelled: port I/O (the disk controller's driver with `write_sectors`, the other drivers, the
-- x86 support), the boot code and the copying of the picture to the screen, which only move data to
-- and from hardware; the assembly of the context switch; the file systems, the system calls, the
-- user interface and, of the overlay, the drawing, the reading of the games' memory and the tables of
-- names. The `reserved` bytes of a save header, always zero, have no field. `SerialCallback` has no
-- user in the source.
pub mod Base
pub mod EventChains
pub mod GameBoy
pub mod Mm
pub mod Overlay
pub mod Sched
pub mod Storage
