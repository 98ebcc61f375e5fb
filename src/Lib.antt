-- ===== src/Lib.antt =====
-- A model of kama-webserver, a reactor-style web server in C++ with its own buffers, memory pool,
-- timers and asynchronous log, and what is proved of it.
--
-- * Buffer (include/Buffer.h, src/Buffer.cc): the byte buffer of a connection, over its array and
--   two indices; sizes wrap at 2 ^ 64.
-- * Channel (include/Channel.h, src/Channel.cc): the events a descriptor waits for, and which
--   callbacks run.
-- * Poll (src/EPollPoller.cc, src/Poller.cc): the state machine of a channel's index, with the calls
--   of epoll_ctl as a trace and epoll_wait as an argument.
-- * Connection (include/TcpConnection.h, src/TcpConnection.cc): the handlers of a connection, over
--   two buffers and an event mask; Output has send and handleWrite, Input handleRead, Files sendFile
--   and the loop that runs its queued calls.
-- * EchoServer (src/main.cc): the callbacks that the program gives to its parts.
-- * EventLoop (src/EventLoop.cc, include/EventLoop.h): the queue of functors and the eventfd, as
--   interleaved steps; Timers has runAt, runAfter and runEvery, over a timerQueue_ that may be null.
-- * Server (src/TcpServer.cc, src/Acceptor.cc, src/EventLoopThreadPool.cc): the table of connections
--   and the loops that take turns.
-- * TimerQueue (src/TimerQueue.cc, include/Timer.h, src/Timer.cc): the ordered timers and the timerfd;
--   a callback may add timers.
-- * Memory (include/memoryPool.h, memory/memoryPool.cc): the slot allocator and its size classes.
-- * EventLoopThread (src/EventLoopThread.cc, src/Thread.cc): the start and the end of a loop's
--   thread, as interleaved steps of its owner and of itself.
-- * Lfu (include/LFU.h): the least-frequently-used cache, its counters and lists of nodes; Sliced has
--   the cache that is cut into slices, FreqList the lists with their pointers in a store.
-- * Log (log/AsyncLogging.cc, log/LogStream.cc, log/LogFile.cc, log/FileUtil.cc, src/Logger.cc,
--   include/FixedBuffer.h): the formatting of numbers, the parts of a line, the log with two buffers
--   on each side, and the file with its rolling.
-- * Prelude (shared): names, Boolean tests, lists measured by native numbers, byte arrays, integers.
--
-- A poller runs the channels' handlers, which belong to connections, to the acceptor, to the timers
-- and to the loop's eventfd; each connection stands in one loop, and reads and writes through its
-- buffers. The kernel's answers are arguments, and theorems state what they need of them: that
-- write takes no more than it is offered, that readv returns no more than it has room for, that
-- operator new returns fresh memory, that fwrite takes nothing only with an error. The loops over
-- write, readv and fwrite, the queue of sendFile and the destructor of the memory pool run on fuel; for
-- handleWrite one more than the bytes that wait is enough, for handleRead one more than the number of
-- the call of readv that gives no bytes, for FileUtil::append the number of bytes, for sendFile that of
-- bytes and files and of the calls that found the socket full, for the destructor one more than the
-- blocks. The int counters of the caches and of the log file are taken not to overflow, capacities to
-- be below 2 ^ 31, and maps to be iterated in one fixed order; the number of a connection wraps, and its
-- theorem says how far it holds.
--
-- Not modelled: socket and address wrappers, the names of threads and of log files, the choice of the
-- poller, type names, the formatting of times, and main itself, which only makes the parts. Calls of a
-- connection from another thread, which queue the same function at the loop, are seen only as queued
-- functors; the destructor's read of loop_ and its call of quit are one step; the wall clock may show
-- anything at a wake-up of the timerfd.
pub mod Prelude
pub mod Buffer
pub mod Channel
pub mod Poll
pub mod Connection
pub mod EchoServer
pub mod EventLoop
pub mod EventLoopThread
pub mod Server
pub mod TimerQueue
pub mod Lfu
pub mod Memory
pub mod Log
