-- ===== src/Lib.antt =====
-- DEER is a small kernel for x86-64, written in C and booted by Limine. This library models parts
-- of it and proves what they do. Paths below stand from the root of the repository.
--
-- The parts and their files:
--   * Pmm: kernel/src/memory/pmm.c, the allocator of physical pages. The record Pmm holds its static
--     variables, the bitmap as one byte per index and the memory map as a list; each function has
--     its C name, and the loops are functions of their own (find_loop, set_loop, clear_loop,
--     survey, mark_range) on the number of rounds that are left, which the C code bounds as well.
--   * Heap: kernel/src/memory/heap.c, kmalloc and its family. Blocks are records at addresses, 0 is
--     NULL, and the search of the list runs on fuel, the number of blocks. heap_init is in
--     Heap/Init, over the pages and the page tables.
--   * Memory: kernel/src/libc/string/mem*.c over a byte-addressed memory.
--   * Itoa: kernel/src/libc/string/itoa.c; 64 rounds of fuel are enough for 64 bits in any base.
--     Reverse has the swaps at its end, and Text a reader of what it leaves.
--   * Gdt: kernel/src/sys/gdt.c, but for gdt_load, which is assembly.
--   * Pic: kernel/src/drivers/pic.c. Trace records what drivers do to the machine; what a port
--     answers is a function of the port and of the trace so far, since it is no code of the kernel.
--   * Interrupts: kernel/src/interrupts/{idt,isr,irq}.c: gates, tables of handlers and dispatch, with
--     the addresses of the assembly stubs as an argument. Of the handlers only exception_handler
--     is opened; a call of another is recorded in the trace.
--   * Task: kernel/src/tasking/task.c, the list of tasks and the scheduler. Its loops run on fuel,
--     and one round more than there are tasks is enough. The assembly routines that save and switch
--     contexts are recorded as switches, and the code behind a switch, which does not return, is
--     not reached.
--   * Paging: kernel/src/memory/paging.c. Physical memory is a word of 64 bits at each address of the
--     direct map, whose offset is the bootloader's and is taken to be a multiple of the page size;
--     cr3 is a field, and invlpg and the loads of cr3 are logged. The tables of a whole address
--     space form a tree: every table that is reached is a marked page, and no two entries name one.
--   * Vmm: kernel/src/memory/vmm.c, address spaces over the words, the pages and the heap of Paging.
--   * Framebuffer: kernel/src/graphics/fb.c over words of 32 bits: pixels, rectangles and clearing, and
--     in Glyphs characters and text, with the font file as an argument.
--   * Printf: kernel/src/libc/stdio/printf.c, what a format prints and counts, as a function of the
--     arguments; a format or an argument list that C leaves undefined has no result.
--   * Screen: kernel/src/libc/stdio/printf.c, what the characters do: the cursor, the scrolling and
--     the copy for the serial port.
--   * Serial: kernel/src/drivers/serial.c, the bytes that go to the port, newest first; the wait for
--     the line status stands for the time at which it returns.
--   * Text: kernel/src/libc/string/{strlen,strcpy,strcat}.c on fuel, of which one round more than the
--     text has characters is enough; in Text/Compare strcmp.c, strncmp.c and strncpy.c.
--   * Acpi: kernel/src/sys/acpi.c. `memory` is the byte at each virtual address of the firmware's tables,
--     which the kernel only reads; mapping them goes through Paging, and the signatures are the
--     addresses of their literals. Each loop has its number of rounds from the code.
--   * Apic: kernel/src/sys/apic.c, the local APIC, the IOAPIC and the HPET, in Command the interrupts
--     between processors and in Clock the timer and the sleeps. Stores to devices are a list, and a device answers a read by a function `load` of the address and the list so
--     far. The walk of the MADT runs on fuel, one round more than there are bytes; a sleep goes over
--     rounds of interrupts, each from one test of its loop to the next; a wait that only reads a device stands for the time it ends.
--   * Smp: kernel/src/sys/smp.c, the processors. The bootloader's answer is an argument, and so are the
--     steps that the other processors take before each reading of the loops of smp_start_aps.
--   * Boot: kernel/src/kernel.c, the early allocator, the order in which the memory is set up, and the
--     start of the two tasks up to the switch to the first.
--   * Base and Bits: shared names, tests, machine words, stores, and the arithmetic of masks.
--
-- The heap takes its memory from paging, which takes pages from Pmm; the interrupt tables call the
-- handlers, and end an interrupt at the Pic or the local APIC. Acpi finds the tables that Apic
-- reads, both map them by Paging; the timer of Apic drives the scheduler of Task, and Smp takes
-- pages from Pmm and maps them for each processor that starts. Unsigned arithmetic wraps at the
-- width of its type, written out as a remainder.
--
-- Not modelled: pit.c and banner.c; what crypto/aes.h declares without code; messages that functions print; of kernel.c
-- the greeting on the screen and the calls in kernel_main; assembly files, simd.c, which queries the processor, and Limine, whose memory
-- map, framebuffer and offset are arguments.
pub mod Acpi
pub mod Apic
pub mod Base
pub mod Bits
pub mod Boot
pub mod Framebuffer
pub mod Gdt
pub mod Heap
pub mod Interrupts
pub mod Itoa
pub mod Memory
pub mod Paging
pub mod Pic
pub mod Pmm
pub mod Printf
pub mod Screen
pub mod Serial
pub mod Smp
pub mod Task
pub mod Text
pub mod Trace
pub mod Vmm
