-- ===== src/Lib.antt =====
-- The storage, the memory and the scheduling of Nachos, as this repository extends it (Nachos/code): the free map
-- of the disk, the file headers, the directory and the disk they are written to, the translation of addresses with
-- a page table or a TLB, the instructions of the simulated machine and its interrupts, and the lists, the
-- scheduler and the synchronisation of threads.
--
-- userprog/bitmap.cc is Bitmap: the class `BitMap` is the record `BitMap` (`numBits`, `numWords` and `map`, called
-- `words`), `Mark`, `Clear`, `Test`, `Find` and `NumClear` are `mark`, `clear`, `test`, `find` and `num_clear`,
-- and the constructor is `new_bit_map`, which gets what the fresh memory holds. A word is a number below 2 ^ 32.
--
-- filesys/filehdr.cc is FileHeader. `Allocate`, `Deallocate`, `ByteToSector`, `FileLength` and `ExpandFileSize`
-- take a header and the free map and return both; the macro `INDIRECT_MAP` chooses between FileHeader/Direct,
-- where the header names every sector, and FileHeader/Indirect, where its last two entries name a sector of
-- numbers and a sector of such sectors. FileHeader/Attributes has the type and the dates, with `HeaderCreateInit`
-- and `getFileExtension`, as the memory from `fileType` on, and FileSystem/HeaderSector has `FetchFrom` and
-- `WriteBack`, as the bytes of the header's sector. A string that `strcpy` would write past the attributes ends
-- the run. The operations of Direct and Indirect leave the type and the dates as they are. Printing is left out.
--
-- filesys/directory.cc is Directory: `Find` is `find_sector`, and `FindIndex`, `Add` and `Remove` are
-- `find_index`, `add` and `remove`. Names are compared over their first `FileNameMaxLen` characters, as `strncmp`
-- does, and an entry holds as many as `strncpy` copies. Its loops are the one loop Common/Search.
--
-- filesys/filesys.cc is FileSystem, as filesys/Makefile builds it, with one directory: `Create`, `Open`, `Remove`
-- and the constructor with `format` are `create`, `open_file`, `remove_file` and `format`, put together from the
-- operations of Directory, Bitmap and FileHeader/Direct; what `HeaderCreateInit` does to the type and the dates of
-- the new header is left out there. The disk is seen as the headers that its sectors hold. What `FetchFrom` reads
-- from the two open files and `WriteBack` writes to them stands in the state as a map and as a directory;
-- FileSystem/DirectoryFile and FileSystem/MapFile have the two operations themselves, through `ReadAt` and
-- `WriteAt` of OpenFile, as the bytes of the entries and of the words. FileSystem/Path is `pathParser` of
-- filesys/filehdr.cc, with `dirname` and `basename` of the C library, where a write before `dirArray` aborts, and
-- FileSystem/SubDirectory has what `MULTI_LEVEL_DIR` makes of filesys.cc: `FindDirSector`, `FindDir`, `Open`,
-- `Create`, `Remove` and `RemoveDir` are `find_dir_sector`, `find_dir`, `open_path`, `create_path`, `remove_path`
-- and `remove_dir`, on the record `Tree` of the headers, the free map and the contents of the directories. A
-- directory is opened there as by the constructor of `OpenFile`, which stops for a sector that is not on the disk;
-- the sectors that its header names are taken to be on the disk, in use and its own. `WriteBack` to it writes the
-- bytes that lie in its file (`stored_directory`). FileSystem/Consistent has the invariant.
--
-- machine/disk.cc and filesys/synchdisk.cc are SynchDisk. As the file system sees them, a sector is read or
-- written whole, and a number that names no sector stops at the `ASSERT` of `ReadRequest` or `WriteRequest`.
-- SynchDisk/Timing has the times of machine/disk.cc: `ComputeLatency` and `UpdateLast` are `compute_latency` and
-- `update_last`. SynchDisk/Serial has the threads: `ReadSector` and `WriteSector` are steps of a thread
-- (`try_lock`, `send_request`, `wait_done` and `finish`), and `HandleInterrupt` with `RequestDone` is
-- `disk_interrupt`, which occurs at any time while a request is pending; its lock is that of Synch, and the
-- theorems on the lock of the bounded buffer hold for it through SynchDisk/Serial/View. SynchDisk/Serial/Alone
-- leads from these steps to the sectors of SynchDisk. Common holds what they share: `ASSERT` of threads/utility.h
-- ends a run (`Run`), an `int` that is looked at as an index or as -1 is `ℤ`, and C arrays are lists, where a read
-- out of bounds gives a default and a write out of bounds changes nothing; the theorems assume that arrays have
-- their declared length. Sizes are not negative. The sums of a size or a position that a caller gives, in
-- `ExpandFileSize`, `ReadAt` and `WriteAt`, end the run where they are no `int` (`int_sum` of Common/Int), and the
-- theorems on them have that bound; every other sum is bounded by a length or by the size of the disk.
--
-- filesys/openfile.cc is OpenFile: `ReadAt` and `WriteAt` are `read_at` and `write_at` on a header of
-- FileHeader/Direct, with the sectors as strings of bytes; a buffer is a function from the index, and `fresh` is
-- what `new char[]` holds. An open file is the record `OpenFile`; `Read`, `Write` and `Seek` are `read`, `write`
-- and `seek`, where what other threads do to the disk during `Yield` is a parameter; opening and closing are
-- `new_open_file` and `close`. The times of access in the header and the counts of visitors are left out.
--
-- machine/machine.h, machine.cc and translate.h are Machine, the record of the simulated machine: its registers,
-- its memory, the TLB and the page table (pointers that may be NULL are options). machine/translate.cc is
-- Machine/Translate: `Translate`, `ReadMem` and `WriteMem`; an exception is the result instead of the call of
-- `RaiseException`. The parts of userprog/exception.cc and userprog/addrspace.cc that are built with `USE_TLB` are
-- Machine/Tlb: `TLBMissHandler`, `TLBAlgoFIFO`, `TLBAlgoLRU`, `SaveState` and `RestoreState`; Machine/Cpu holds
-- `IncrementPCRegs` and `InitRegisters`. Addresses, pages, frames and registers are 32-bit words; a sum that may
-- leave that range keeps its `% 2 ^ 32`. The inverted page table and demand paging are left out.
--
-- machine/mipssim.cc and mipssim.h are Mips: `Decode` with its tables is `decode`, `Mult` is Mips/Mult, and
-- `OneInstruction` is `one_instruction` of Mips/Step; its `switch` is `execute`, whose branches are in Mips/Arith,
-- Mips/Branch and Mips/Transfer, one function for an operation code or for codes that share their code in the
-- source. `DelayedLoad` and the part of `RaiseException` before the kernel's handler are in Mips/Registers. What
-- the `switch` leaves is an `Effect`: the delayed load and the next program counter, or an exception. A register
-- is its 32-bit pattern; what `int` does to it is in Mips/Word. The loop `Run` and what is printed are left out.
--
-- threads/list.cc is Threads/Lists: `List` is the record `ListState`, which holds the store that its elements
-- stand in. An element that was deleted is gone from the store, and following NULL or an address where no element
-- stands aborts, so that a theorem that an operation returns says that it follows no dangling pointer. `Append`,
-- `Prepend`, `SortedInsert`, `SortedRemove`, `Remove()` and `Remove(item)` are `append`, `prepend`,
-- `sorted_insert`, `sorted_remove`, `remove_first` and `remove_item`; items and keys are numbers.
-- Threads/Lists/Sequence says what they do to the sequence of items. threads/scheduler.cc and `Yield` of
-- threads/thread.cc are Threads/Scheduler, which uses the list through those theorems: `ReadyToRun`,
-- `FindNextToRun` and `Run` are `ready_to_run`, `find_next_to_run` and `run`. They run with interrupts off, and so
-- as one step; preemption and user programs are left out there. Threads/Scheduler/Table is the table of the
-- numbers of threads (`tFlag` and `allThread` of threads/system.cc) with the constructor and the destructor of
-- `Thread`, `new_thread` and `delete_thread`; Threads/Scheduler/Lifecycle has `Fork`, `Sleep` and `Finish`, and
-- the end of `Run` that deletes the thread that finished: `fork_thread`, `sleep`, `finish` and `dispatch`. The
-- loop of `Sleep` has fuel, one more than the calls of `Idle`, which is a parameter, before a thread is ready.
-- `Send` and `Receive` of threads/thread.cc are Threads/Messages; the table of messages is a list and a buffer a
-- function.
--
-- threads/synch.cc is Synch: `P`, `V`, `Acquire`, `Release`, `Wait`, `Signal` and `Broadcast` are `p_pass` (one
-- pass of the loop), `v`, `acquire`, `release`, `wait`, `signal` and `broadcast`. They run with interrupts off,
-- and so as one step up to a `Sleep`; a thread that is woken is given back by the step. Synch/Buffer is the
-- bounded buffer that is built from them, as a relation between states in which any thread may make the next step;
-- a thread's `Place` is its program counter, and a step ends where another thread may run and see the difference.
-- The queues are the sequences that the lists of Threads/Lists stand for.
--
-- machine/interrupt.cc is Interrupt: `Schedule`, `CheckIfDue`, `OneTick`, `SetLevel` and `Idle` are `schedule`,
-- `check_if_due`, `one_tick`, `set_level` and `idle`, with the times of machine/stats.h in the state and the
-- pending interrupts in a list of Threads/Lists. The handlers, which are functions of the devices, and
-- `Thread::Yield` are parameters. The loop over `CheckIfDue` has fuel, and a theorem shows how much is enough.
-- Interrupt/Timer is machine/timer.cc, a device whose handler meets what that theorem asks of one; `Random` is a
-- parameter.
--
-- The loops of `SortedInsert` and `Remove(item)` have fuel, the number of the elements, and theorems show that it
-- is enough. Every other loop of the other files is bounded by a number that stands in the state, and is
-- structural recursion on the rounds that are left.
--
-- Not modelled: the variants of threads/synch.cc for the other macros, threads/synchlist.cc, the readers and
-- writers of a file in filesys/synchdisk.cc, whose locks and counts its constructor does not set up, the system
-- calls of userprog/exception.cc and the loading of programs, machine/elevator.cc, the console and the network
-- with network/post.cc, the host interface, and everything that prints.
pub mod Bitmap
pub mod FileHeader
pub mod Directory
pub mod SynchDisk
pub mod OpenFile
pub mod Mips
pub mod Machine
pub mod Threads
pub mod Synch
pub mod Interrupt
pub mod FileSystem
pub mod Common
