-- ===== src/Lib.antt =====
-- Verification library of MyMisu OS, a small 32-bit kernel in C.
--
-- Each part of the kernel is modelled as pure functions on a record of the part's static variables:
-- what a C function returns stands beside the new state. The parts and their files:
--
--   Base       shared names, Boolean tests, lists, integers, the loops that search a table
--   Errno      src/errno.h
--   CStrings   src/string.c; a buffer is a list of bytes, and an access past it stops at its end
--   Fs         src/fs.c and src/fs.h: the ramdisk. `Fs` is fs_nodes, fs_fd_table and current_dir;
--              Fs/Named has the calls that take a name, Fs/Descriptors those on descriptors, Fs/Boot
--              fs_init and the calls in any order
--   Pmm        src/pmm.c and src/multiboot.h: the bitmap of physical pages; Pmm/Init has pmm_init
--   Klog       src/klog.c: the ring of log entries
--   Keyboard   src/keyboard.c: scancodes and the ring of characters
--   Process    src/process.c and src/context_switch.s: the process table, the scheduler and the switch of
--              stacks. `Kernel` also holds the page allocator and the log, which process.c calls, and the
--              memory and the registers, which the switch changes
--   Timer      src/timer.c: the timer interrupt, which calls into Process
--   Syscall    src/syscall.c: the handlers and their dispatch over the parts above and the terminal. What
--              the caller's memory holds at an address is a parameter
--   Vga        src/vga.c: the text screen, the cursor and the pager, which may wait for a key
--   Kprintf    src/kprintf.c: what a format and its arguments print on the terminal
--   Gdt        src/gdt.c: the descriptors of the segments
--   Idt        src/idt.c: the gates, and where an exception or an interrupt goes
--   Shell      src/shell.c: the words of a line, the history, the commands, which call the parts above,
--              and the keys of the login
--   Start      src/kernel.c: the parts set up in their order, and what the screen shows before the shell
--
-- A function of a model has the name of the C function. The tick that C reads by timer_get_ticks is an
-- argument `now` of the calls of Fs and Klog, and the field `tick` in `Kernel`. A pointer that may be
-- NULL is an Option. Unsigned 32-bit arithmetic is written out modulo 2 ^ 32, and an int is an integer or
-- the bit pattern of one. Loops over a table are structural recursion; the loop over the addresses of a
-- memory map entry has 2 ^ 20 rounds as fuel, which is the number of pages below 2 ^ 32.
-- The text of `process_entry_wrapper` and of the tasks is not run: a function is its address.
--
-- The recursion over the digits of a number has 11 calls as fuel; 10 digits are enough for 32 bits.
-- `none` stands for a call that waits for a key, stops the processor or writes past a buffer of the
-- shell. In `sys_sleep` the only interrupts are those of the timer; each counts a tick, so that as many
-- as ticks are asked for are enough. `syscall_handler` and the cases of execute_command are split into
-- groups; the last argument of a group is what the cases behind it give. A buffer on the stack begins with the bytes that are given as `local`.
--
-- Not modelled: the loop of the shell that reads a line, what the login prints and its delay; what
-- `note` does when its text overruns a buffer; the commands edit, syscall, tree, top, sysmon, widgets,
-- menu, files, reader and the games, whose effect `execute_command` takes as the argument `app`; what
-- other processes do while one sleeps; the .inc files, which nothing includes; and the assembly files
-- but src/context_switch.s. The registers of the real-time clock are a parameter.
pub mod Base
pub mod CStrings
pub mod Errno
pub mod Fs
pub mod Pmm
pub mod Klog
pub mod Keyboard
pub mod Process
pub mod Timer
pub mod Vga
pub mod Kprintf
pub mod Syscall
pub mod Gdt
pub mod Idt
pub mod Shell
pub mod Start
