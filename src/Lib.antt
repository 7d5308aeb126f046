-- ===== src/Lib.antt =====
-- HVAC: a cache for the training data of large jobs. A library preloaded into each application process
-- redirects `open`, `read`, `pread` and `close` of the data set's files to servers, which read the files
-- and copy them to their node's own storage.
--
-- Parts, and the files that model them:
--
--   CachePolicy     src/hvac_cache_policy.cpp and .h: the tier of each file and what each tier holds.
--                   A call is a program over the globals (Policy) that returns, or ends the process, or
--                   waits for ever. Calls keeps the calls on one file, Eviction the victim and the
--                   eviction, History any sequence of calls, Init the environment. Spec is what the
--                   policy promises, without lock or order, Refinement compares the two, and Answers
--                   adds what the calls return.
--   Registry        the file `./.ports.cfg.<job>`: `hvac_comm_list_addr` (src/hvac_comm.cpp) writes it,
--                   `hvac_client_comm_lookup_addr` (src/hvac_comm_client.cpp) reads it. RoundTrip compares
--                   the two, and Order looks at servers that post in another order.
--   Client          src/hvac_comm_client.cpp (Rpc: the four requests; Defs: the callbacks and the waits)
--                   and src/hvac_client.cpp (Files: `track_file`, `remote_read`, `remote_pread`,
--                   `remote_lseek`, `remote_close`, `remove_fd`, each the function `hvac_...`). Tables,
--                   Pairing and Uses follow the two tables of descriptors over any use of the library;
--                   Failed has the requests that fail, Unposted those that find no address.
--   Wrappers        src/wrappers.c: `wrap_open`, `wrap_close`, `wrap_read`, `wrap_pread`, which call
--                   Client and the real functions, with their statistics, and what a log message
--                   (src/hvac_logging.c) does to the thread's flag; `map_or_fail` is MAP_OR_FAIL of
--                   src/hvac_internal.h. Tallies counts a program's calls, and Export is the text that
--                   `export_stats_to_file` writes.
--   Server          src/hvac_comm.cpp (Handlers: open, read, seek, close) and src/hvac_data_mover.cpp
--                   (Mover), which share `path_cache_map` and `data_queue`; Events interleaves them,
--                   Descriptors follows one descriptor through them, Streams what is read from it in parts
--                   while others are served, Manners and Survival many clients that use only what they
--                   opened, Crashes how the server ends, Thread is `hvac_data_mover_fn` from its start,
--                   Histories compares it with the events, Waking has the signals and wake-ups, and Settling
--                   the data mover when nothing interrupts it.
--   Cluster         clients and servers together: Mercury delivers a client's request to a handler, and
--                   a request to a server that has ended, or ends over it, fails. Reading, Running and
--                   Positioned follow one program, Streams and Programs one that reads in parts between
--                   the requests of others, Failure what the end of a server does to its clients.
--                   OpenTable is what a program should see, a table of its open files; Agreement says
--                   when a process over its servers agrees with one, OpenStep, OpenKeeps, ReadStep and
--                   CloseStep keep that, and Transparency runs a whole program beside its table.
--   Completion      the hand-over of an answer between threads (src/hvac_comm_client.cpp: `done` and its
--                   condition variable, with the threads that sleep on it), as steps of any number of threads.
--   MultiSource     src/hvac_multi_source_read.cpp: `ms_read`, which ends in undefined behaviour on
--                   a tracked file, and the decision and the loop behind that, as they stand.
--   Startup         `hvac_client_init` (src/hvac_client.cpp), `hvac_init_comm` (src/hvac_comm.cpp) and
--                   the server's `main` (src/hvac_server.cpp), up to its endless loop.
--   Registration    `hvac_rpc_register` and its kin (src/hvac_comm.cpp), as client and server call them:
--                   the ids of the requests and their handlers.
--   Progress        `hvac_progress_fn` and `hvac_shutdown_comm` (src/hvac_comm.cpp): the thread's steps
--                   between the completions that arrive and a shut-down; Waiting sets them beside the
--                   client's waits.
--   Logging         src/hvac_logging.c: `hvac_init_logging`, as its calls of log4c, and
--                   `log_preformatter_internal`.
--   Host            what the client stands on and the repository does not hold.
--
-- Base, OrderedMap and Text hold the numbers, lists, `std::map` and the C library's text routines.
--
-- State is explicit: each component has a record of its globals, and a function of the source is a
-- program over it (Base/Programs), whose outcome is a value or the way in which the process ends: exit,
-- a failed assertion, undefined behaviour, an exception that nobody catches, or a wait for ever.
--
-- Mercury, the kernel, the file system, the clock and `std::hash` are the parameters Host and Kernel,
-- log4c is the parameter Log4c, and Mercury's hash of a name is the parameter of Registration, HG_Trigger
-- one of Progress, and the two requests of `ms_read`, which cannot be compiled, one of MultiSource.
-- What a theorem uses of them is a hypothesis with a name: StaticFiles (only a copy changes files, and
-- writes none that is there), Descriptors (open gives a descriptor that is not open), OpenFiles (each
-- descriptor has what is left to read, which only a read, a seek or a close of itself changes), Transfers
-- (Mercury registers a buffer and pushes what fits in it), Posix (the calls on an open descriptor),
-- Readable, Positioned (a read at an offset), Knows, IsTracked, Distinct (the ids of the four requests
-- differ), IsOldestFirst (HG_Trigger takes the completions in their order). Tests gives instances of all of them.
--
-- Numbers: `uint64_t` counters wrap at 2 ^ 64 (add64, sub64); an `int32_t` on the wire keeps 32 bits
-- (int32); `done` has 8 bits; times are in nanoseconds, where the source has seconds as a `double`.
--
-- Loops: the scans of maps and lists are structural. The reading of the address file takes as many
-- rounds as the file has bytes, and one more, which is enough because each line that is read is not
-- empty. A `while` around a condition variable takes the answers that are still to come, in order; if
-- they run out, the program waits for ever.
--
-- A thread that loops for ever (Progress, the data mover, the server's `main`) is a step relation or a
-- program whose outcome is to wait for ever.
--
-- How `printf` writes the times is a parameter of Export. The counts of calls, a `size_t`, are taken not
-- to wrap.
--
-- Not modelled: Mercury's own start (src/hvac_comm.cpp); the wrappers of src/wrappers.c that are commented
-- out or under `#if 0`; the messages of a failed copy; data races on
-- the maps, which threads share without a lock.
pub mod Base
pub mod OrderedMap
pub mod CachePolicy
pub mod Text
pub mod Registry
pub mod Host
pub mod Client
pub mod Server
pub mod Wrappers
pub mod Completion
pub mod MultiSource
pub mod Cluster
pub mod Startup
pub mod Logging
pub mod Progress
pub mod Registration
mod Tests
