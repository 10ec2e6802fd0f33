-- ===== src/Lib.antt =====
-- NO_OS, a kernel for x86-64 with its own language, modelled and verified part by part.
--
-- The program. kernel/kern/kernel.c starts the parts one after the other: the frame allocator takes the
-- boot loader's memory map, the heap takes frames from it, the scheduler takes the stacks of its tasks from
-- the heap, and the shell, which is task 0, compiles what is typed to byte code and runs it on the virtual
-- machine. User tasks run the same language in rings of their own; the timer preempts them, a key or the
-- clock wakes them, and their pages move to the tail of the disk when frames run short.
--
-- The files, with the code that each is about:
--   Base             names that all share: tests on numbers, C arrays as lists, words that wrap
--   Mm/Bitmap        the bits of kernel/mm/pmm.c and kernel/mm/swap.c: a list of bytes
--   Mm/Pmm           kernel/mm/pmm.c: the frame allocator, every function of it
--   Mm/Heap          kernel/mm/heap.c: kmalloc and kfree on the chain of blocks, which is a list of headers
--                    with their addresses
--   Mm/Swap          kernel/mm/swap.c: the slots, the moves of a page, reclaiming and the end of a task
--   Mm/Vmm           kernel/mm/vmm.c: the four levels of page tables in memory, with the frame allocator
--   Mm/Model         kernel/mm/model.c: the pages of model weights in a task, over Mm/Vmm and Mm/Pmm
--   Kern/Memory      kernel/kern/string.c: memset, memcpy and memmove on the bytes of memory
--   Kern/Sched       kernel/kern/sched.c: the task table; a switch gives the state and how it ends, in a
--                    user task's frame, in the shell's coroutine or where it was called
--   Kern/KeyWait     kernel/arch/x86_64/syscall.c: the loop of the call that waits for a key
--   Kern/Format      kernel/kern/format.c: the digits of a number
--   Kern/Line        kernel/kern/line.c: the line editor, with the bytes of the line as a list
--   Fs               kernel/fs/noosfs.c and kernel/include/fs.h: the structures as bytes, blocks, the inode
--                    table and the bitmaps; Fs/Super the superblock, formatting and mounting; Fs/Dir the
--                    directory; Fs/Files the content of files
--   Drivers/Kbd      kernel/drivers/kbd.c: scancodes, modifiers and the ring of keys
--   Predict          kernel/noc/predict.c and kernel/mm/pgpred.c: the history and the vote, once for both
--   Noc/Lexer        kernel/noc/lexer.c: the tokens and their tables; Noc/Lexer/Scan the loops over the text
--   Noc/Interact     kernel/noc/interact.c: the log of commands and their output, and its file
--   Noc/Registry     kernel/noc/vm.c: the functions by name
--   Noc/Alu, Noc/Vm  kernel/noc/vm.c: the arithmetic and the machine; `execute` has one clause for each
--                    instruction, and a frame is a function with a program counter and a base
--
-- Every component is a record of what the C file keeps in static variables, and a function from state to
-- state for each function of the file, with the result beside the state. A null pointer, or a result of -1,
-- is `none` or the number that the code returns. Words of 64 and 32 bits wrap as written out.
--
-- Bounds and fuel. Loops over arrays are recursions on the number of rounds. `kmalloc` calls itself after
-- the heap has grown, and has fuel for two calls: the second finds the new block. The loop of `pmm_init`
-- over the memory map is on fuel, one unit more than the address of its end. The loop of the machine takes
-- any amount, since a program need not end. `floor_log2` takes one unit for each halving, at most 63 for a
-- word. The lexer has one unit more than the bytes of the text, since each of its rounds takes a byte. A
-- round that drops the oldest line of the log takes at least a byte of the buffer, so its bytes are enough.
--
-- Parameters. Physical memory is a function from addresses to bytes, and in Mm/Vmm and Mm/Model to the
-- 64-bit words of tables and pages. The machine of Noc/Vm has the keyboard and the builtins as parameters,
-- which reach every other part; Mm/Swap has the page tables, the frames and the disk; Fs has the disk driver,
-- with what it promises as hypotheses, and the memory for its buffers; the scheduler is given what the memory
-- managers return to it, and Noc/Interact what formatted printing writes.
--
-- Not modelled: the parser and compiler, the builtins and the language models of kernel/noc, format strings
-- and printing, the drivers other than the keyboard's, the descriptor tables and the boot code, which are
-- assembly or port accesses. What these do to the modelled parts is an argument or a parameter, as said above.
pub mod Base
pub mod Drivers
pub mod Kern
pub mod Noc
pub mod Mm
pub mod Predict
pub mod Fs
