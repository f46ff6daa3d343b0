-- ===== src/Lib.antt =====
-- neutrix is a kernel for x86_64. Modelled here are its frame allocator, its memory routines,
-- its VGA text writer, its device manager, its mouse, keyboard and frame buffer drivers, its
-- console, its reading of the ACPI tables, its scan of PCI, its interrupt controllers, its heap
-- and virtual pages, its task executor, its timer, its feature detection, and how the entry
-- point joins them. The frame allocator, the memory routines, the ACPI parsers and all drawing
-- work on a memory of bytes (`Ram` of Base/Bytes.antt, a function from addresses); the writer
-- keeps its screen as a function from cells and its port writes as a list; the device manager
-- keeps its registry as a list. ACPI registers devices with the manager and lists the
-- controllers that the I/O APIC driver is set up with; the console and the mouse's cursor draw
-- through the frame buffer driver. Port instructions are a parameter (`Ports` of
-- Arch/Ports.antt).
--
-- Base and its children: names of the libraries passed on, tests on numbers, lists under native
-- numbers, words of 8 to 64 bits, bits of a byte, the memory, integers.
--
-- Memory/Frame.antt, src/memory/frame.rs: `BootInfoFrameAllocator` is a record of the same
-- fields; `init`, `free_frame`, `test_bit`, `set_bit_runtime` and `allocate_frame` take and
-- return the memory. A frame is given by its number. Sums of addresses wrap at 2^64 as the
-- release build's do. Bitmap holds lemmas on bits of the bitmap, Alloc the theorems on single
-- calls, Init and Init/Place the lemmas on `init`, Boot its result, History the histories of
-- calls, Reserved those from `init` on.
--
-- Rlib/Mem.antt, src/rlib/mem.rs: `memcpy`, `memset`, `memcmp`, `memmove` and `slow_byte_cmp`,
-- a function per loop. A 16-byte load reads 16 bytes, a 16-byte store writes those that were
-- loaded, and the mask of `_mm_movemask_epi8` is computed from the 16 comparisons. The loops
-- run on fuel, the number of bytes left, which drops by one at least in each round, so it does
-- not run out. Span holds the references `copied` and `filled`; Copy, Fill, Move and Compare
-- have the theorems. Addresses are natural numbers: a region that wraps around the address
-- space is not described.
--
-- Bootvga/Writer.antt, src/bootvga/vga_buffer.rs: `Writer` with every method. The buffer's
-- index check is a `none`. Screen, Write and Text have the theorems on whole screens, single
-- bytes and strings. The lock is left out.
--
-- DriverFramework/Device.antt, src/driver_framework/device.rs and driver.rs: device
-- descriptions, and drivers by their answers to `probe` and `start`.
-- DriverFramework/Manager.antt, src/driver_framework/manager.rs: `DeviceManager`, with the
-- counter of ids and the calls made on drivers. Ids, Attach and Merge have the theorems.
--
-- DriverFramework/Drivers/Ps2Mouse.antt, src/driver_framework/drivers/ps2mouse.rs: the packet
-- state of the interrupt handler; Packets has its theorem. Cursor moves and draws the cursor,
-- Trail has its theorem; Controller is the talk with the keyboard controller, Ack its theorem,
-- with a mouse that answers as a named interface (`IsMouse`). `start` flushes old bytes in a
-- loop without bound: that one runs on a fuel that is an argument. The packets offered to the
-- queue are results, and the packets that the event loop takes a list; wakers are left out.
--
-- DriverFramework/Drivers/Vectors.antt, the same file and ps2kbd.rs beside it: the vectors that
-- a driver registers in the interrupt table, Arch/Idt.antt, src/arch/idt.rs. Which vectors the
-- library's table can be indexed with is a parameter (`IdtIndex`), and a call at another one panics.
-- Release has the theorem.
--
-- DriverFramework/Drivers/VbeVga.antt, src/driver_framework/drivers/vbe_vga.rs: the font and
-- the drawing functions; Start has the display mode and the mappings of start and stop, with
-- the page tables as a parameter (`Mapper`). Paint has the loops that all drawing shares and
-- their lemmas, Restore the lemmas on writing pixels back, Draw the theorems. Addresses are
-- natural numbers.
--
-- DriverFramework/Drivers/Console.antt, src/driver_framework/drivers/console.rs: the consoles
-- and every function on them. The loop that clears the last row runs on its number of bytes, of
-- which each round clears one at least. Inside has the theorem.
--
-- Devices/Acpi.antt, src/devices/acpi/acpi.rs: the search for the root pointer, and checksums.
-- Tables and its children have the packed structures by their offsets, Parse the parsers, whose
-- state is what the tables told, the device manager and the ports. The loops over entries run
-- on the table's length, and each entry has a byte at least. Search, Checksum, Madt and Grew
-- have the theorems.
--
-- Hal/IoApic.antt and Hal/IoApic/Setup.antt, src/hal/ioapic.rs: the table of I/O APICs and the
-- operations on redirection entries. `read_volatile` and `write_volatile` are a parameter
-- (`Mmio`); Chip states what the chip's data sheet says of them (`IsChip`). The table, the
-- controllers that ACPI lists and its overrides are arguments. Find, Entry and Setup have the
-- theorems.
--
-- Memory/VirtualPages.antt, src/memory/virtual_alloc.rs: the bump allocator of pages, and the
-- runs of its calls. The library's sum of an address and a number, which panics where it is no
-- address, is a parameter (`VirtAddrSum`). Pages has its theorem.
--
-- Arch/Processor.antt and Arch/Processor/Detect.antt, src/arch/processor.rs: the feature flags
-- and their decoding, with `cpuid` as a parameter. Leaves has a lemma on the vendor's text.
--
-- Arch/Processor/Enable.antt, the same file: the features that are switched on, with the
-- control registers as a parameter.
--
-- Bootvga/Helpers.antt, src/bootvga/vga_helpers.rs with `_print` of vga_buffer.rs: printing and
-- the macros, on the screens of the console. Twice has the theorem.
--
-- DriverFramework/Device/ClassText.antt, src/driver_framework/device.rs: the names of classes.
--
-- DriverFramework/Drivers/Ps2Kbd.antt, src/driver_framework/drivers/ps2kbd.rs: the interrupt
-- handler, the driver's calls, the stream of scancodes, and `getline` with what it prints. The
-- decoder of scancodes and the queue (`ArrayQueue` of Arch/ArrayQueue.antt) are parameters.
-- Screen has a line editor on a stack and a terminal, Line the theorems that `getline` refines
-- them.
--
-- Devices/Pci.antt and its children, src/devices/pci.rs: configuration space through the ports
-- and through memory (`Machine` of Arch/Machine.antt), the base address registers, Caps the
-- capabilities, Scan the scan of the buses and the registration. Layout says what registers a
-- function may have, Rounds has the lemmas on a round of the loop, Sizing and Chain the
-- theorems on them. Registered has lemmas on the device manager under the scan, Present says what
-- functions are there, Found what the scan finds. The loops over the registers, the capabilities and the buses run on
-- their fixed numbers of rounds, as in the source.
--
-- Arch/Task.antt, src/arch/task.rs: the executor. A future is what a poll of it does, the maps
-- are association lists (Base/Assoc.antt). `run_ready_tasks` runs on fuel: 101 rounds are
-- enough while the tasks that wait and the wakers that polls will call are 100 at most
-- together, the capacity of the queue. Kept has the invariant, Round what a round is, Fate what
-- becomes of a task that stays pending or is ready, Drain the theorem.
--
-- Arch/TscTimer.antt, src/arch/tsc_timer.rs: the calibration and the arming of the timer. The
-- wait for the counter runs on fuel: 1001 rounds are enough on a counter that goes on whenever
-- it is read. Calibration has the theorems.
--
-- Memory/Heap.antt, src/memory/allocator.rs: the pages of the heap, each with a frame of the
-- frame allocator. The page tables are a parameter that may take frames too (`PageMapper`).
-- Sound says what page tables may do with frames and memory, and that the bitmap is left alone;
-- Backed has the theorem.
--
-- Hal/Apic.antt and Hal/Init.antt, src/hal/apic.rs and src/hal/hal.rs: the local APIC, and the
-- set-up of the processor, ACPI and the interrupt controllers in their order.
--
-- Main.antt, src/main.rs: the reserved end of the kernel, the memory with the heap, the devices
-- that are registered by hand, and the interrupt of the mouse. Boot has the theorem.
--
-- Not modelled: paging and the interval timer, which are a few accesses of hardware; segments
-- and exceptions, which fill structures of a library; and of the entry point the order of the
-- remaining calls. Prints are left out, but for `_print` itself and what `getline` shows.
pub mod Base
pub mod Memory
pub mod Rlib
pub mod Bootvga
pub mod DriverFramework
pub mod Hal
pub mod Arch
pub mod Devices
pub mod Main
