-- ===== src/Lib.antt =====
-- A model of the kernel's own logic, with the theorems that make it correct.
--
-- The repository is a set of managers for one kernel: memory, processes and their scheduling,
-- communication between processes, the network, security, and a window manager on top. Most of
-- them are singletons whose state is private and whose calls of each other go through functions
-- without a body in the repository. Each file below models one of them: its state is a record,
-- an operation is a function from the old state to the new one and the result, and what an
-- operation calls outside is either an argument or a list of calls in its result. A lock makes
-- an operation one step; no interleaving inside an operation is modelled, but for one parallel loop. The mutex of Latency
-- is part of the state, since one operation calls another that locks it too.
--
-- Memory.PageAllocator (memory/PageAllocator.hpp) is the bitmap of 4 KiB pages. Its children
-- split the proofs: Bitmap for the bits of a byte, FirstFit for the search loop, Counts for the
-- number of free pages, Invariant for what every valid allocator satisfies, Allocate and Laws
-- for the operations, Fragments for `getFragmentationRatio`, whose last division on floating
-- point numbers is left out.
-- Memory.EnhancedAllocator (memory/MemoryManager.hpp) is the allocator of 2 MiB pages that
-- inherits from it, and the manager that chooses between the two by the size.
-- Memory.Unified (memory/MemoryManager.cpp) is the manager of pools and page allocations with its
-- page table and its cache of translations; its child Freeing is `freeMemory` with the
-- defragmentation of a pool, and Tlb, Pools, Pages, Reuse and RoundTrip split the proofs.
-- Memory.Compression (memory/vmm.hpp) is the compression of a page by runs, and the pass that
-- compresses the inactive pages. Memory.Graphics (memory/GraphicsResourceManager.hpp) is the
-- list of blocks of the video memory: sorting, merging, compacting and reserving.
-- Memory.Resources is the cache of resources of the same manager and the collection of garbage.
-- Files.Paths and Files.Descriptors (filesystem/VirtualFileSystem.hpp) are the normalisation and
-- validation of paths, the search for the mount point, and the table of open files; the driver
-- and the file cache that `openFile` calls are an interface. Files.Pool, Files.Cache and
-- Files.Reading (filesystem/VirtualFileSystem.cpp) are the buffer pool and the error log, the
-- cache of several levels, and `read`, which uses both over a disk that is an argument.
-- Files.Cache.Tuning is `optimizeCache`: its comparisons of floating point numbers and its sort are
-- the record `Platform`.
-- Memory.Game (memory/EnhancedMemoryManager.hpp) is the memory for games with its accounts, and the
-- named resources.
-- Network.Buffers (network/network_stack.cpp, BufferManager) holds the two ring buffers; Ring
-- and Refine relate them to a bounded queue of bytes. Network.Stack holds the route cache and
-- `processPackets`.
-- Ipc.Messages and Ipc.Shared (ipc/ipc_manager.hpp) are the message queue, the segments of
-- shared memory and the signal handlers; Ipc.Listeners (ipc/ipc_manager.cpp) is the part of the
-- manager that notifies listeners and dispatches messages.
-- Scheduler.Enhanced (scheduler/scheduler.cpp, with the states of process/process.hpp) creates,
-- ends, selects and switches processes. Its priority loop is marked for parallel execution: the
-- order in which the workers execute the iterations is an argument.
-- Scheduler.Gaming (scheduler/GameAwareScheduler.hpp) finds the games that run and tunes their
-- threads; the calls that it makes are a list. Its child Monitoring watches the games, reserves
-- memory and sets priorities. The profiles of the games are left out.
-- Boot (boot/bootloader.cpp) is the boot loader: Image validates the kernel image, MemoryMap walks
-- over the memory map, Cpu reads the leaves of CPUID, Pci probes the buses, and Stages composes
-- them to `initialize`, where the one exception of an allocation that is modelled is that of the
-- list of devices. The children hold the proofs.
-- Latency (src/latency_analyzer.cpp) is the latency analyzer with its mutex; Performance
-- (core/performance_metrics.h) is the life of the performance metrics and what they measure of
-- the processor and the memory. Both take floating point numbers as an argument or return the
-- whole numbers of which the code takes a quotient.
-- Security (security/security_manager.cpp) holds the access control lists, the audit trail and
-- the policies.
-- Interrupts (src/InterruptManager.cpp) is the table of handlers and the mask of the two
-- interrupt controllers.
-- Routines (interrupt/InterruptHandler.hpp) is the other table, of service routines, with the bits
-- of the entries of the descriptor table.
-- Syscalls (syscall/syscall_manager.cpp) is the table of system calls and the four handlers, over
-- an interface of the managers that they call.
-- Ui.Windows (ui/WindowManager.cpp) is the stack of windows, the focus and the routing of
-- mouse, key and resize events; Ui.Events (ui/EventQueue.hpp and `processEvents`) is the queue
-- that the events come from.
-- Prelude holds what they share: tests, lists with native lengths, dictionaries as association
-- lists, and integers.
--
-- Machine integers that can wrap keep their width (addresses, sizes and ring counters have 64
-- bits); counters that the program could not drive to overflow, and `int` coordinates, whose
-- overflow C++ leaves undefined, have no bound. Names that are only compared are numbers.
-- Loops over an index have the rounds that are left as their fuel, which is the bound in the
-- source; `Memory.Compression.rle` has one round for each byte, since every run takes at least
-- one. `Memory.Graphics.reserve_memory_block` calls itself without a bound: its rounds are how
-- often it has done so. `Ipc.Messages.clear` and `Ui.Events.drain` have fuel of
-- their own: the length of the queue, and one round more for the second, is enough. In
-- `Boot.MemoryMap` 2^32 rounds are enough, because each step goes on by four bytes at least and the
-- map ends below 2^32. `Boot.Pci.probe_buses` has rounds, of which no number is enough.
--
-- Not modelled: assembly and register access, with the descriptor tables, paging and protected
-- mode of the boot loader; the drivers and multimedia; the Windows compatibility headers; and
-- logging and time, which the operations take as arguments where they record them. Of the file
-- system, compression, encryption and filesystem/vfs.cpp, which call code without a body or compute
-- with floating point numbers; likewise the allocation of the virtual memory manager, textures, the
-- shader compiler, the graphics part of the performance metrics, TaskScheduler and the power
-- manager. A resource of Memory.Game has a type that is only stored, which is left out.
pub mod Prelude
pub mod Boot
pub mod Files
pub mod Interrupts
pub mod Ipc
pub mod Latency
pub mod Memory
pub mod Network
pub mod Performance
pub mod Routines
pub mod Scheduler
pub mod Security
pub mod Syscalls
pub mod Ui
