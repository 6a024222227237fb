-- ===== src/Lib.antt =====
-- A model of NachOS 4.0, the instructional operating system, and of the machine that it runs on:
-- the C++ sources under Source/NachOS-4.0/code, with the theorems that make their parts correct.
--
-- Base: assertions, arrays, tests and the bits of machine words, shared by all.
-- Bitmap: lib/bitmap.h and bitmap.cc (Mark, Clear, Test, FindAndSet, NumClear are mark, clear, test,
-- find_and_set, num_clear). A bitmap is its array of 32-bit words.
-- Disk: machine/disk.h and disk.cc (ComputeLatency, TimeToSeek, ModuloDiff, UpdateLast): the times.
-- FileSys: filesys/. FileSys.Directory is directory.cc (FindIndex, Find, Add, Remove);
-- FileSys.Header is filehdr.cc (Allocate and Deallocate over the bitmap of free sectors);
-- FileSys.SynchDisk is the effect of synchdisk.cc on the list of sectors; FileSys.OpenFile is
-- openfile.cc (ReadAt, WriteAt, Read, Write, Seek), which FileSys.OpenFile.Bytes sees as bytes.
-- Interrupt: machine/interrupt.h and interrupt.cc (Schedule, CheckIfDue, YieldOnReturn) over the
-- sorted list of Lists and the machine, whose delayed load an interrupt finishes.
-- Lists: lib/list.h and list.cc (Append, Prepend, RemoveFront, Remove, SortedList::Insert are append,
-- prepend, remove_front, remove, insert). A list is its chain of items and their count;
-- Lists.Pointers has the elements at their addresses, with first, last and next.
-- Machine: machine/machine.h, machine.cc and translate.h (registers, memory, exceptions).
-- Machine.Translate is Machine::Translate of translate.cc, with the page table and with the TLB;
-- Machine.Memory is ReadMem and WriteMem. What the kernel does in an exception is the argument
-- `handler`. Machine.Mult is Mult of mipssim.cc, Machine.Decode is Instruction::Decode with its tables,
-- Machine.Execute is OneInstruction, whose arithmetic is in Machine.Word and whose loads and stores of
-- parts of words are in Machine.Unaligned. The build defines SIM_FIX, and so does the model.
--
-- Threads: threads/. Threads itself is scheduler.cc and thread.cc (ReadyToRun, FindNextToRun, Run,
-- CheckToBeDestroyed, Begin, Fork, Yield, Sleep, Finish); Threads.Synch is Semaphore::P and V of
-- synch.cc; Threads.Lock is Lock. A method that can switch threads is a function up to SWITCH, and
-- another from its return on; Threads.Moves puts them in sequence in every order that the scheduler,
-- time slices and handlers can make. Threads.Counting is the specification of semaphores,
-- Threads.Wakeups weighs their units against the threads that are to take them, and
-- Threads.Rotation is about threads that yield in turn.
--
-- Syscalls: the calls of threads/kernel.cc on files (File_Create, File_Open, File_Close, File_Remove,
-- File_Seek, User2System, IncreasePC), in the build with FILESYS_STUB of filesys/filesys.h and
-- openfile.h. The calls of UNIX and the allocator are the parameter `unix`, and ExceptionHandler is
-- `handler`. Syscalls.Numbers is EH_ReadNum and PrintNum, whose numbers have ten digits at most.
--
-- A method returns the new object beside its result; loops recur on the rounds left, which the
-- source fixes beforehand, so no fuel runs out; the loop of CheckIfDue takes its rounds as an
-- argument, and as many as there are pending interrupts are enough. A failed ASSERT aborts the
-- simulator, and so does, in the model, an access outside an array, whose behaviour C++ leaves
-- undefined: both are `Outcome.aborted`. How many bytes the allocator sets aside for an
-- array, of which File_Open asks for one too few, is `chars_given` of `unix`. An `int` that the source
-- uses as an index or a count is a natural number, and a result of -1 is `none`.
--
-- Not modelled: destructors, the printing and debugging code, and the simulator's calls of UNIX;
-- condition variables and synchronized lists, the reading and writing of files and of the console by
-- system calls, the dispatch of these, the layout of the file system on the disk, address spaces, the
-- hash table, and the other devices.
pub mod Base
pub mod Bitmap
pub mod Disk
pub mod FileSys
pub mod Interrupt
pub mod Lists
pub mod Machine
pub mod Syscalls
pub mod Threads
