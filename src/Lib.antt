-- ===== src/Lib.antt =====
-- funtrace is a function call tracer: instrumented programs record each call and return in a cyclic
-- buffer of their thread, and the runtime (funtrace.cpp) takes snapshots of the buffers and writes
-- them to files that a decoder reads.
--
-- Parts, and where they are modelled:
-- - Prelude: shared names, lists over native numbers, and the laws of bit_and and bit_or.
-- - Config (funtrace.cpp, env_int, default_log_buf_size): the environment variables.
-- - TraceBuffer (funtrace.cpp, trace_data): a thread's buffer. Memory is a function from the address
--   of an entry to the entry; a pointer is its address, 0 for null. TraceBuffer/Mask has the
--   arithmetic of the wraparound mask, TraceBuffer/Window the cyclic list, TraceBuffer/Refine and
--   TraceBuffer/Run the calls of trace, TraceBuffer/Allocate the allocation.
-- - Search: std::lower_bound, by the standard library's halving loop; the fuel is the length of the
--   range, which each round shortens.
-- - Registry (funtrace.cpp, trace_global_state): the registered traces, at addresses; each operation
--   runs under the mutex and is one step. The fuel of the collector's loop is the number of traces:
--   each round passes one or removes one. Registry/Start has the constructor, Registry/System the
--   steps of threads in any order, with the blocks that the allocator gave out; a call of trace takes
--   no lock and is a step of its own, which no other comes in the middle of. A thread that is not
--   registered calls trace while its trace is disabled: the calls after it left its buffer to the
--   collector are not modelled.
-- - Snapshot (funtrace.cpp, find_earliest_event_after and the snapshot functions): what is copied from
--   the buffers. Snapshot/Exact takes the buffer as it is, Snapshot/Traced as calls of trace leave it,
--   with calls that were written after the position was read.
-- - History: the runs of Registry/System with a log of all that was recorded in each block since its
--   registration; TraceBuffer/Log relates a buffer to its log, Snapshot/Logged what a snapshot finds.
--   History/Written has the file of a snapshot in a run, History/Programs the programs that call the
--   functions of funtrace.h, whose threads start and end as pthread_entry_point makes them, with what
--   the calls say of whether tracing is off.
-- - Format (funtrace.cpp, the write functions): the file, against the description of the format in
--   README.md, which Format/Chunks reads on its own.
-- - Hooks (funtrace.cpp, the __cyg_profile and __cxa functions; funtrace_flags.h): what each hook adds
--   to the buffer, against the description of the flags in README.md, which Hooks/Decode reads.
-- - Api (funtrace.cpp, the functions of funtrace.h and pthread_entry_point): snapshots of all
--   registered threads, the switches of tracing, and the life of a thread. Api/Heap has the memory
--   that a snapshot takes and funtrace_free_snapshot gives back.
-- - Ftrace (funtrace.cpp, ftrace_handler): the time stamps of lines, the cyclic buffer of events and
--   its snapshot. A line of the pipe is one step, under the handler's mutex. Ftrace/Thread has the
--   statements of the handler's constructor and destructor and of its thread, which take turns in any
--   order, Ftrace/Files the files of the tracer instance that they write, and Ftrace/Orphans the
--   tracer instances that are removed.
-- - Collector (funtrace.cpp, funtrace_gc): the rounds of the collector's thread. Collector/Life has the
--   statements of the constructor, the destructor and the thread, which take turns in any order; a
--   turn of the thread ends a wait by its time, and a turn of the system ends one without a
--   notification. A wait for the mutex or for the thread is a turn that changes nothing.
-- - Clock (funtrace.cpp, get_tsc_freq, cpu_cycles_per_second, current_time_ms).
-- - CmdLine (funtrace.cpp, get_cmdline).
-- - Format/Procmaps (funtrace.cpp, get_procmaps): the text of the memory map.
-- - Sigtrap (funtrace.cpp, sigtrap_handler): the statements of the constructor and destructor, of the
--   signal handler and of the thread, which take turns in any order. A wait for the mutex or for the
--   thread is a turn that changes nothing.
-- - Funcount (funcount.cpp): the page tables that count calls. Funcount/Segments has the executable
--   segments that one table maps, Funcount/Loaded the loops that map them in each table, at the start
--   and when libraries are opened. Funcount/Tables has the calls on several cores, with a table for
--   each, Funcount/Report what the destructors of the tables do, Funcount/Text the file that they
--   write, and Funcount/Whole and Funcount/Filed all of these from funcount_init to the end.
--   The fuel of allocate_range is the number of pages from its start to its end, both included.
--
-- Undefined behaviour, and a failed assertion, is the value none of the function that meets it.
-- posix_memalign, pthread_getname_np, cpuid, the time stamp counter, the environment, the addresses
-- that new returns, the memory map and the lines of ftrace that a snapshot takes are parameters.
-- Not modelled: the assembly entry points, the decoders in Rust, the compiler wrappers and tests, the
-- names of funtrace's own threads, the priority of the thread that reads ftrace events, a negative
-- number of ftrace events, calls of trace that another step comes in the middle of, the calls of
-- constructors before funcount_init, and messages to the standard output and error.
pub mod Prelude
pub mod Config
pub mod TraceBuffer
pub mod Search
pub mod Registry
pub mod Snapshot
pub mod Format
pub mod Funcount
pub mod Hooks
pub mod Api
pub mod Ftrace
pub mod Clock
pub mod CmdLine
pub mod Collector
pub mod Sigtrap
pub mod History
