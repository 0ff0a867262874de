-- ===== src/Lib.antt =====
-- A verification library for rasOS, a small 32-bit kernel in C (src/ of the repository): its parts
-- are modelled as functions on explicit states, and the theorems state what each promises.
--
-- The parts, and how they stand on each other:
-- - Base: shared names, Boolean tests, lists as arrays, integers, bits, and results. A status `-e`
--   of the code is `err e`, and a pointer is an address with 0 as null, or an Option.
-- - Memory (src/memory/memory.c): memset, memcmp and memcpy on lists of bytes.
-- - Heap (src/memory/heap/heap.c): the block allocator. heap_get_start_block is the search,
--   heap_mark_blocks_taken the marks, heap_malloc and heap_free the two calls.
-- - KernelHeap (src/memory/heap/kheap.c): the one heap of the kernel. Its table and the memory it
--   hands out are given as bytes. Blocks is what it is to code that only allocates and frees.
-- - Paging (src/memory/paging/paging.c): page directories and tables in a memory of words, a function
--   from addresses. The pages that kzalloc returns are a parameter, taken aligned and distinct.
-- - CString (src/string/string.c): strings as lists of bytes that end at a 0 or at the list's end.
-- - PathParser (src/fs/pparser.c): paths, over CString and Memory; Nodes has the same functions with the
--   linked list that they allocate and free.
-- - Disk (src/disk/disk.c, src/disk/streamer.c): the stream of bytes over sectors, a function from their
--   numbers; Ports has disk_read_sector over the ports of the drive, and Drive what is documented of an
--   ATA drive, with which it gives the sectors.
-- - FileTable (src/fs/file.c): file descriptors and fopen, fread, fseek, fstat and fclose, over
--   PathParser and Disk. The file system behind the function pointers is a record of operations.
-- - Fat16 (src/fs/fat/fat16.c): the allocation table and the chains of clusters, over Disk; the
--   contents of files, directories and the search of a path (fat16_get_directory_entry), the open
--   files that the file layer calls (fat16_open to fat16_close), and fat16_resolve. Its child
--   Files/Mounted puts FileTable on top; Owned has the same functions with the memory of their items.
-- - Elf (src/loader/formats/elfloader.c): the headers of an image and elf_load, over FileTable; in Sections
--   what the loading of a process does not use.
-- - Task (src/task/task.c): the list of tasks, whose turns task_get_next takes, and their registers; in
--   Memory the switches of page tables and copy_string_from_task, over Paging.
-- - Process (src/task/process.c): the slots of the processes, process_load, and the address space that
--   it builds, over FileTable, Elf, Paging and Task.
-- - Gdt (src/gdt/gdt.c) and Idt (src/idt/idt.c): the tables that the processor reads, and the tables
--   of callbacks and commands. A panic is `none`.
-- - Syscalls (src/isr80h/isr80h.c, src/isr80h/syscalls.c, and the handlers of src/idt/idt.c): the four
--   commands, over Task, Display, Keyboard and Idt; and system calls and interrupts one after the
--   other, in any order, as a step relation on the system (Syscalls/Steps.antt). A step runs to its
--   end before the next: the gates of the table are interrupt gates. Every callback is taken to be
--   the keyboard's, the only one that the code registers. The handler of gate 0 does not go back to
--   the task, and what is printed has to stay in the video memory, in which no end is set to the rows.
-- - Display (src/display/display.c): the screen and its cursor.
-- - Keyboard (src/keyboard/keyboard.c, src/keyboard/qwerty.c): the ring of characters of a
--   process, and the list of keyboards.
-- - Boot (src/kernel.c, src/task/tss.h): kernel_main, which starts all of these and runs the first program.
--
-- Numbers are native; 32-bit addresses and 16-bit cursors keep their wrap-around. Loops over an index
-- are structural on the rounds that are left. Some functions run on fuel: diskstreamer_read, for which
-- one round for each sector that is touched is enough; the parts of a path, for which one for each
-- character and one more is; fat16_read_internal, whose definition gives one for each cluster and one
-- more; and the scan of a directory, for which one for each item and one more is, and which does not end
-- on a disk without a last item; the loops over the linked parts of a path, for which one for each part
-- and one more is; and the loop that waits for the drive, for which one more than the reads of the status
-- for which the drive is ever busy are. Each has a theorem that says so.
--
-- Positions on the disk are `int`s: a read whose positions reach 2^31, where they overflow or are
-- negative, is not modelled and gives no status.
--
-- Not modelled: the assembly (boot loader, ports, stubs, register switches), which is hardware.
-- Allocations are taken to succeed but in Heap, KernelHeap, Process and copy_string_from_task; what is
-- freed is modelled in Heap, KernelHeap, Paging, PathParser, Fat16 and elf_close. kzalloc of no bytes is null
-- in Fat16. Blocks frees a request whole, which kfree does for those of at most one block of 4096 bytes
-- (Heap.Release), and is used for these only.
pub mod Base
pub mod Boot
pub mod CString
pub mod Disk
pub mod Display
pub mod Elf
pub mod Fat16
pub mod FileTable
pub mod Gdt
pub mod Heap
pub mod Idt
pub mod KernelHeap
pub mod Keyboard
pub mod Memory
pub mod Paging
pub mod PathParser
pub mod Process
pub mod Syscalls
pub mod Task
