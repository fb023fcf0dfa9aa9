-- ===== src/Lib.antt =====
-- CocosOS: the core of a small 32-bit kernel, from its sources in C.
--
-- Parts and files
--   Memory         kernel/memory/memory.c. A heap is the headers by address and the two static
--                  pointers; `memory_init`, `memory_alloc`, `memory_free`, `memory_get_free` are
--                  Memory_init, Memory_alloc, Memory_free, Memory_get_free, and `coalesce_step` one
--                  round of the loop of coalesce. Memory/Blocks is the specification, a list of
--                  blocks; Layout says when a heap stands for such a list, Lifecycle is about
--                  any sequence of calls. Ledger and Counts are for the parts that use the heap beside
--                  each other: the addresses that they hold are counted.
--   Paging         kernel/memory/paging.c and paging.h. Directories and tables stand at addresses
--                  that Memory_alloc returned; each function has its name. Stopping by panic, and a
--                  write through a null pointer, are outcomes (Base/Outcomes). Paging/Frames is about the
--                  bitmap, Paging/Translate about mapped pages, Owners, Owned, Fresh, Tables, Entries,
--                  Isolation, Directories and Reach about the owners of frames and tables.
--   Process        process_manager/process.c and process.h, with memory from Memory and Paging.
--                  Process/Pick is about the choice of the next process, Create about a new one, Reach
--                  about all states that calls lead to; Idents, Secure and Life are about the payloads and
--                  pids of the processes, beside others that use the heap.
--   ProcessTable   process_manager/process_manager.c, another table of processes; Tick is about the calls of a
--                  tick.
--   Scheduler      scheduler/scheduler.c, a circle of tasks; Fair is about any calls from the start.
--   Ring, Events   kernel/events/event.c, kernel/input/input.c, timer/timer.c and the interrupt
--                  handlers of kernel/drivers/keyboard/keyboard.c and kernel/drivers/mouse/mouse.c
--                  that push to both queues. Ring/Lossy is the specification of such a queue,
--                  Ring/Observed the quotient of its states by what calls tell apart.
--   Ipc            IPC/ipc.c, the queue of texts.
--   Fs             filesystem/fs.c, the table of files. Fs/Refine has the specification
--                  `answers_table`, on a list of names and contents (Base/Tables), Fs/Rows the view of the
--                  array as such a list.
--   Vfs            filesystem/vfs.c and ramfs.c, a list of nodes whose data stand in the heap. Vfs/Table is
--                  the view as a list of names and contents, Owned and Write about the blocks that the nodes
--                  own, Reach and Contract about any calls beside others that use the heap.
--   Mouse          kernel/drivers/mouse/mouse.c: the packets, the waits, the initialisation. Interrupts is
--                  kernel/drivers/ISR/isr.c, interrupts/irq.c and kernel/panic.c.
--   Nic, Wifi      kernel/drivers/net/nic.c and kernel/drivers/wifi/wifi.c; the functions of a driver
--                  are fields of its device, as in the source.
--   Devices        IDT/idt.c, PIC/pic.c and timer/pit.c, as the entry that is stored and the writes to the
--                  ports in order.
--   Disk           kernel/drivers/disk/disk.c. The drive is an argument: a type of states and what its ports
--                  do to them. Disk/Drive says what the code relies on of a drive.
--   Kernel, Boot   kernel/kernel.c: the main loop over the queue of Events, and `kernel_main` before it,
--                  which calls the initialisations of Memory, Vfs, Fs, Nic, Wifi, Devices, Disk and Log.
--   Screen         what is written: terminal/terminal.c and kernel/drivers/display/Display.c.
--   Terminal       terminal/terminal.c, the line that is typed, which goes to Shell. Terminal/Session has
--                  the specification `session`, Terminal/Lines is about one line.
--   Shell, Cpm     shell/shell.c and cpm/cpm.c, commands as calls and an overrun of an array as a fault.
--   Keyboard, Console, Log
--                  kernel/drivers/keyboard/keyboard.c, kernel/drivers/console/console.c and
--                  kernel/logs/log.c.
--   Runtime        runtime/runtime.c, the applications and the Lua application.
--   Installer      installer/installer_gui.c: Draw and Screens are what is printed, Detect the search
--                  for operating systems, Menu the two loops over lines from the keyboard; what is
--                  printed, run and waited for are effects in order.
--   Base, Tests    shared helpers, and runs at concrete inputs.
--
-- State is passed explicitly: a function takes the record of a file's static variables and returns
-- the record afterwards. Numbers are natural numbers; 32-bit addition and subtraction wrap where the
-- result can leave the range. A negative result is its 32-bit pattern or a constructor of its own. A
-- text is the bytes before the closing NUL, or the whole array where what follows it matters.
--
-- Loops over lists recurse on the list. The walks over the heap's headers recurse on `rounds`, one
-- more than the heap's length in bytes: a block has more than one byte, so a well-formed heap has fewer
-- blocks, and the theorems on the heap show that every walk returns. Loops with a counter recurse on
-- the rounds that are left. The loop of process_manager/process_manager.c runs to a count that the
-- functions it calls may change; it is given ten rounds, the length of its table. The loop over the events
-- of kernel/kernel.c has 64 rounds, one more than its queue holds; decimal numbers have twenty digits, enough
-- for 64 bits. A wait for the disk is given a number of polls, and the theorems take a drive that is ready within them.
--
-- Not modelled: the code in assembly (loading the page directory and the interrupt table, switching
-- contexts, clearing and writing the screen, reading the keyboard's port), whose calls are results, recorded
-- calls or arguments; `timer_get_ticks` and `MAX_APPS`, which no file defines, arguments; polling of ports
-- but for the mouse's and the disk's; the Lua interpreter and the functions that no
-- C file defines (`kernel_boot`, `kernel_print`, `wrile`, `cli`, `sti`, `gdt_init`, `mm_init`, `device_init`, `gui_init`,
-- `lua_init`), arguments, and `lua_run`, which comes before the main loop; blade and core, a few lines that
-- print or hand a path on; kernel/drivers/Io/io.h, which is assembly; and the headers of file systems and
-- controllers that nothing implements (filesystem/cocosfs.h, storage/ahci.h).
pub mod Base
pub mod Boot
pub mod Console
pub mod Cpm
pub mod Devices
pub mod Disk
pub mod Events
pub mod Fs
pub mod Installer
pub mod Interrupts
pub mod Ipc
pub mod Kernel
pub mod Keyboard
pub mod Log
pub mod Memory
pub mod Mouse
pub mod Nic
pub mod Paging
pub mod Process
pub mod ProcessTable
pub mod Ring
pub mod Runtime
pub mod Scheduler
pub mod Screen
pub mod Shell
pub mod Terminal
pub mod Tests
pub mod Vfs
pub mod Wifi
