-- ===== src/Lib.antt =====
-- Verification of the reactor, the logging library and the locks of this repository.
--
-- How the program is put together: an EventLoop waits in its Epoller for events, lets each active
-- Channel call its handlers, and then runs the functions that were queued. A TimerQueue is one such
-- channel, an Acceptor another. A TcpServer takes connections from its Acceptor and gives each a loop of
-- its EventLoopThreadPool; a Connector opens them from the client's side. A TcpConnection moves bytes
-- between its socket and two Buffers. A TcpClient joins a Connector and its connection. A loop in a thread
-- of its own belongs to an EventLoopThread. Log lines are put together by a Logger in a LoggingStream and
-- written by a LogFile.
--
-- Files, with the code that they model:
--   Base           shared helpers: tests, lists and maps over the native numbers, integers, memory ranges
--   Buffer         reactor/Buffer.h, Buffer.cc: the class Buffer, its methods under their names
--   Logging        logging/LoggingStream.h, LoggingStream.cc: Convert has convert and convertHex, Stream has
--                  FixedBuffer and operator<<; logging/Logging.h, Logging.cc: Logger has the class Logger and
--                  the macros
--   Channel        reactor/Channel.h, Channel.cc: the event masks and handleEvent
--   TcpConnection  reactor/TcpConnection.h, TcpConnection.cc: the handlers of a connection
--   EventLoop      reactor/EventLoop.h, EventLoop.cc: the queue of functions, wakeup and loop; Round has a round
--                  with its Epoller and its channels
--   TimerQueue     reactor/TimerQueue.h, TimerQueue.cc, Timer.h, Timer.cc; timestamp/TimeStamp.h, TimeStamp.cc in Clock
--   Connector      reactor/Connector.h, Connector.cc
--   Epoller        reactor/Epoller.h, Epoller.cc
--   Sockets        reactor/Socketops.h, Socketops.cc, InetAddress.h, InetAddress.cc
--   Acceptor       reactor/Acceptor.h, Acceptor.cc
--   TcpServer      reactor/TcpServer.h, TcpServer.cc, EventLoopThreadPool.h, EventLoopThreadPool.cc; Sessions
--                  has the objects of the connections
--   TcpClient      reactor/TcpClient.h, TcpClient.cc: the client with its Connector, its connection and the
--                  functions that are handed to the loop
--   Echo           example/echo.cc, pingpong_server.cc and the sessions of pingpong_client.cc: the message
--                  callbacks inside handleRead; Clients has the class Client with its sessions in several threads
--   EventLoopThread  reactor/EventLoopThread.h, EventLoopThread.cc: the two threads, access by access
--   LogFile        logging/LogFile.h, LogFile.cc
--   Thread         thread/hieraarchical_mutex.cc (Thread/Mutex), thread/threadsafe_queue.cc (Thread/Queue, with
--                  the interleavings in Thread/Queue/Threads, and Thread/Plain), thread/BlockingQueue.cc
--                  (Thread/Plain), thread/threadsafe_lookup_table.cc (Thread/Lookup), thread/Thread.h, Thread.cc
--                  (Thread/Start), thread/thread_pool.cc (Thread/Pool), thread/Atomic.h (Thread/Counter),
--                  thread/Mutex.h (Thread/Holder), the first class of thread/threadsafe_queue.cc with
--                  thread/threadsafe_stack.cc and reactor/taskQueue.cc (Thread/Values)
--
-- State is passed explicitly; an operation whose code can fail an assertion or leave an array returns
-- an Option, with none for the fault. What the kernel and the C library return (write, readv,
-- epoll_wait, epoll_ctl, accept4, the address functions, the clock, fwrite_unlocked, snprintf of a
-- double) is an argument. What a handler does to the outside is a list of effects. A call under a
-- mutex is one step; where threads interleave inside an operation (EventLoopThread,
-- Thread/Queue/Threads, Thread/Pool, Thread/Holder, Echo/Clients) each access to shared data is one.
--
-- Bounds and fuel: the sizes in a Buffer are 64-bit words with their wrap-around written out. The
-- loops of convert and convertHex run on fuel, 20 and 16 rounds, which the theorems show to be enough
-- for every 64-bit word. The loop of File::append takes the results of its writes one by one.
-- Counters of connections, byte counts of sessions and times are unbounded numbers; a length that a
-- stream takes is an int, made from a size_t; the counter of Thread/Counter is a word, of 32 bits in
-- Echo/Clients.
--
-- Not modelled: the class Socket, which forwards to Socketops and sets options, toFormattedString,
-- the destructor of TcpClient, and the mains, benchmarks and tests.
pub mod Base
pub mod Buffer
pub mod Logging
pub mod Channel
pub mod TcpConnection
pub mod EventLoop
pub mod TimerQueue
pub mod Connector
pub mod Epoller
pub mod Sockets
pub mod Acceptor
pub mod TcpServer
pub mod TcpClient
pub mod Echo
pub mod EventLoopThread
pub mod LogFile
pub mod Thread
