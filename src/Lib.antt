-- ===== src/Lib.antt =====
-- A model of wae, a Windows runtime for asynchronous tasks on the Win32 thread pool, and theorems about
-- it.
--
-- How the parts interact. A thread pool (src/threadpool.rs) runs tasks that are pushed on three queues,
-- one for each priority; its callback (src/task/spawn.rs) pops one task for every submission and runs it
-- with the task's handle as the thread's current one (src/context.rs). A thread outside the pool waits
-- for a task with block_on (src/task/block_on.rs) on an inline waker (src/task/waker.rs). A socket is an
-- `IoHandle` (src/io/shared/handle.rs) with a half for its reads and one for its writes. A task polls a
-- half, which starts an overlapped operation; a thread of the pool calls back when the operation is
-- done; the two agree by a word of seven states (state.rs) and pass the result in a cell (result.rs).
-- Operations that signal an event in place of a completion, as connecting, accepting and name lookup do,
-- go through an `IoEvent` (event.rs), with the same word. On these stand TCP streams and listeners
-- (src/net/tcp), address lookup (src/net/sockaddr), the futures that fill or send a whole buffer
-- (src/io/read/ext.rs, src/io/write/ext.rs), and the attribute macros (macros/src/lib.rs).
--
-- Which file models what.
--   Common           numbers, tests, lists, integers of C, results and polls
--   Io/State         src/io/shared/state.rs: one definition for each atomic access
--   Io/Cell          src/io/shared/result.rs: `none` is an uninitialised cell
--   Io/Waker         the crate atomic-waker, as an interface
--   Io/Handle        src/io/shared/handle.rs: poll, callback and cancel of one half, each as one
--                    uninterrupted function; Duplex has new, drop and the choice of a half,
--                    and Halves what the reads leave alone
--   Io/Race          the same methods an access at a time, as a step function on a system of one half,
--                    the task that owns it and the callbacks; Replay relates it to Io/Handle, and
--                    Drop puts two of them together as a handle that is used and dropped, and
--                    Stale follows the callback of an operation that was done at once
--   Io/Event         src/io/shared/event.rs; Race has its accesses one at a time
--   Io/Slice         what src/io/read/mod.rs and src/io/write/mod.rs share: the buffer descriptor and
--                    the interface of a reader or writer
--   Io/Read, Write   the futures of src/io/read/ext.rs and src/io/write/ext.rs, and in Slice the
--                    buffers and pointers of src/io/read/mod.rs and src/io/write/mod.rs
--   Io/Fill          what read_exact and write_all come to: a transfer of one buffer in pieces
--   Io/Chain         Chain of src/io/read/ext.rs
--   Threadpool       src/threadpool.rs: Priority, Builder, Pool, Handle, Tasks (with the callback of
--                    src/task/spawn.rs; Bag has the three queues as one bag, Stage and Starts
--                    follow one task through its queue), and Life, the count of the handles
--   Context          src/context.rs
--   Task             src/task: Waker, BlockOn (with Called, its calls, and Frame, its interleaving with
--                    the threads that run its task), Util, Join (spawn.rs), and Executor, which puts tasks, queues
--                    and callbacks together: Counts, Views, Invariant, Steps and Quiet serve Laws and
--                    Wakes, and Reader, with Hang, adds a half that a task awaits
--   Net/Tcp          src/net/tcp: Socket, Transfer (read.rs, write.rs), Stream and Sender (a stream as a
--                    reader and as a writer, with the memory of its buffers; RoundTrip, Drops and
--                    Bounds are about them), Attempts, Connect and Resolve (connect of stream.rs),
--                    Accessors (the options of a socket, and what Debug shows of it), Split (split.rs), Listen, Accept and
--                    Accept/Incoming (listener.rs)
--   Net/Sockaddr     src/net/sockaddr: Host, Info and Dropping (get_addr_info.rs), Addrs
--                    (to_socket_addrs.rs)
--   Macros           macros/src/lib.rs: entry; Quote has the tokens that it makes, Expand main and test
--   Examples         concrete runs
--
-- Conventions. What the operating system answers is an argument or a record `Answers`; a null pointer or
-- an invalid handle is `none`. An `Option` around the result of a method is `none` where the source
-- panics, spins for ever or reads an uninitialised value, and the comment of the definition says which.
-- `u32` and pointer arithmetic wraps, as in a release build. A waker, a handle, a runnable and a thread
-- are numbers. The crates concurrent-queue and atomic-waker are records of operations and laws, and
-- each has an instance; socket2 is a record of operations, of which nothing is assumed, and
-- a task of async_task is a record of steps in Task/BlockOn, of which a theorem assumes what its
-- hypotheses say, and of phases in Task/Executor, where its laws say what the crate does on a
-- wake, a cancellation and a run. The parsers of syn and darling are a record of operations.
--
-- Completions. The operating system calls back for each operation that it has accepted, also if that is
-- done at once, since nothing sets FILE_SKIP_COMPLETION_PORT_ON_SUCCESS. Io/Race, Net/Tcp/Stream and
-- Net/Tcp/Sender keep the callbacks of operations that were done at once, and Io/Event/Race their
-- signals. Whether an operation has gone pending before these callbacks had run is the field `crowded` of a
-- half in Io/Race and the predicate `IsTimely` in Net/Tcp/Stream; whether one was done at once is the
-- field `early` of an event. Io/Handle and Io/Event, the sequential definitions of the methods, leave the
-- order of the calls to those that use them.
--
-- Fuel. `poll` of Io/Fill takes fuel for its calls of itself, and a reader that makes progress needs one
-- more than the bytes that are left. `block_on` takes the list of what happens at each wait; the loops
-- of `callback_pending` and of a waiting cancellation take what they read and what the other threads do
-- between two reads. In Io/Race, Task/Waker and Task/BlockOn/Frame these loops are steps,
-- without fuel. The loop of connect in Net/Tcp/Resolve takes fuel for its rounds, one more than there
-- are addresses.
--
-- Not modelled: the memory orderings of the atomics (accesses are interleaved in one order), the
-- interior of async_task, socket2, syn and darling, the feature tracing, the Debug impls other than those
-- of a stream, its halves, a listener, Accept and Incoming, the calls of `may_block` inside the other
-- methods, which only inform the pool, and the panics of `Handle::current` outside a context in the
-- network code.
pub mod Common
pub mod Io
pub mod Threadpool
pub mod Context
pub mod Task
pub mod Net
pub mod Macros
mod Examples
