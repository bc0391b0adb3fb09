-- ===== src/Lib.antt =====
-- finger_move moves finger print files between groups, a main cache and sub caches.
--
-- The program is one binary with three roles. A group server counts in its search logs which
-- songs were asked for, and hands the finger files of those above a threshold to the main cache;
-- the main cache once a day chooses the files that are asked for least, hands a part of them to
-- each group, and keeps its sub caches in step.
--
-- * Tpqueue (src/tpqueue.h): the blocking queue. `get`, `put`, `setsize`, `setflag` and
--   `resetqueue` have the names of the source, `destroy` is the destructor; each is what a thread
--   does while it holds the mutex. Tpqueue/System interleaves threads, and has `release_free`.
--   Memory is a function from addresses to nodes.
-- * Logmt (src/logmt.h, src/logmt.cc): `logstart`, `logover`, and `mtlogthr` round by round. In the
--   commands, `logmt::logstring` is `logstring` of World, which adds a line to those logged;
--   Logmt/Pipe has it over the queue in memory, where the logger thread takes the lines, and
--   Logmt/Archive its rotations.
-- * Autoconf (src/autoconf.h, src/autoconf.cc): Config has the members, the table and `dispath`;
--   Inspect reads the file, at the start and in each round of `routing_fn`, which the flag of its
--   object ends.
-- * Prodeal (src/prodeal.cc): one child for one or two steps, named after the source:
--   `get_afp_name`, `mov_log_file`, `cnt_srh_nums`, `flt_log_file`, `top_afp_file`,
--   `bot_afp_file`, `mov_afp_file`, `mov_cnt_file`. Steps has the class (src/prodeal.h) as an
--   interface, through which the handlers and the main loop use the steps. Pipeline has the steps
--   that Preconf calls in a row, Daily those of the main loop, and Frames what no step changes.
-- * Rpc, Grpcwrap (proto/dynamicFingerMove.proto, src/grpcwrap.h, src/grpcwrap.cc): messages, the
--   wrappers and their calls.
-- * Client, Server (src/client.h, src/client.cc, src/server.cc): the clients, each over its wrapper,
--   and the handlers. The prefixes gr, gm, gc, mc and sc are those of the classes. Server/Dispatch
--   (src/server.h) has which class answers which request.
-- * Service (src/service.h, src/service.cc): the roles, the threads and servers that each starts,
--   `main`, and one day of `runLoop`. Service/Shares has the groups of the list with their parts of
--   the chosen files, Service/Loop a whole day, and Service/Receipt
--   and Service/Forget what its calls do at the peers.
-- * World, World/Files: what commands change; World/Effects and World/Refusals: what they do when
--   nothing stands in their way, and when something does; World/Frames, World/Keeps and
--   World/Results: what is known of a command whatever it meets. Clib: the parts of the C and C++
--   libraries that the program uses, with Clib/Laws. Base: shared names and lemmas. Tests: runs,
--   and the theorems at concrete inputs.
--
-- A command is a function on the World: files by path, the log queue, the calls made, the
-- configuration and the list of sub caches. It ends in `fault` where the behaviour of the program
-- is undefined: a buffer of 256 or 1024 bytes is overrun, a null pointer is used, a value is read
-- behind its end, or a sum of `int`s overflows. A file that is written changes when it is closed.
-- Paths are read as directory and last part, without links or `..`; a directory holds files only,
-- and readdir returns what was there at opendir. Any path may be locked, which makes calls on it
-- fail.
-- Numbers: an `int` is an integer, and `atoi` has its 32 bits; the sums `pos+cnt` of movCntFile
-- and `lineCount += result` of runLoop end in `fault` when they overflow, and counts of lines do
-- not wrap. A word of a settings file or of the group list is a C string when it is used: what
-- stands behind a NUL is lost. The client that Preconf starts is run when Preconf has answered.
-- Fuel stands in `decimal`, where a number bounds the count of its digits, and in `delete_from`,
-- where the count of nodes and one is enough.
--
-- Parameters: std::sort, which leaves the order of equal entries open, and the peers, whose
-- answer may depend on all calls before. Time is an argument.
--
-- Not modelled: output on the terminal, the gRPC and protobuf libraries, interleavings of threads
-- other than those of the queue, sleep, streams and directories that are left open, the renaming of
-- a directory, which an empty line in a list of files asks for, and the build.
pub mod Base
pub mod Clib
pub mod Rpc
pub mod World
pub mod Prodeal
pub mod Autoconf
pub mod Tpqueue
pub mod Grpcwrap
pub mod Client
pub mod Server
pub mod Logmt
pub mod Service
pub mod Tests
