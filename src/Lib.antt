-- ===== src/Lib.antt =====
-- mutiplex is a C++ network library: a TcpServer runs one EventLoop per thread, an Acceptor or a
-- Connector makes connections; an EventLoop waits on epoll, an EventSource says what a descriptor is
-- watched for and runs its callbacks, a Connection moves bytes between a socket and the application,
-- a CircularBuffer holds what a connection has still to send, a ByteBuffer what it has received or
-- is given to send, and a Slice is a view of bytes. This library models these parts.
--
-- - CircularBuffer (mutiplex/CircularBuffer.h, src/CircularBuffer.cpp): the record has the fields of
--   the class (`in_`, `out_`, `capacity`, and the block as a list of bytes), and one function per
--   member function, with uint32_t arithmetic modulo 2^32. `memcpy` checks the bounds of both
--   blocks. `contents` is the abstract view: the bytes held, oldest first; `Bounded` runs
--   sequences of calls on a ring and on a queue of bytes. `UnitTest` has three of the four tests of
--   tests/CircularBuffer.cpp.
-- - ByteBuffer (mutiplex/ByteBuffer.h, src/ByteBuffer.cpp): the four bytes of the capacity stand in
--   the block, as in the source. `readable` is the abstract view: the bytes from the position to the
--   limit.
-- - EventSource (src/EventSource.h, src/EventSource.cpp, and the three epoll_ctl wrappers of
--   src/EventLoop.cpp): a change returns the new source and the requests made of epoll.
--   `Protocol.accept` says which of them epoll accepts.
-- - Slice (mutiplex/Slice.h): `memcmp` is a parameter, with its manual's description as hypothesis.
-- - Connection (mutiplex/Connection.h, src/Connection.cpp, and of src/EventLoop.cpp the two parts
--   that it uses, `connections_` and `task_queue_`): a `World` is a connection with these, the
--   posted lambdas are a data type that `Tasks` runs, and the application is a function from a
--   callback to the calls that it makes in answer. `stream` is the abstract view: the bytes sent,
--   followed by those held. `Echo` is the echo server of benchmark/mutiplex/echo/server.cpp as such
--   an application, and `TcpServer.Datetime` the server of benchmark/mutiplex/datetime/server.cpp,
--   which writes a line and closes; `Farewell` has what any such callback leads to, and
--   `Conversation` any number of messages to an application that answers as the echo server does.
--   `Events.on_event` is what epoll's events do to a connection, through `EventSource.handle_events`,
--   and `Execution.Step` has all that may happen to one, in any order, with an application and a
--   kernel that may change with every step. `Sharing.Turn` has the same for any number of connections
--   on one loop, whose tasks stand in one queue, with those that other threads leave in
--   `pending_callbacks_`, and with `connections_`, where a connection may take or erase the entry of
--   another one of the same descriptor; a call on another connection from within a callback is a step
--   of its own there. `Kept` is an interface: what a relation has to keep for all that an event or a
--   call does to keep it.
-- - EventLoop (mutiplex/EventLoop.h, src/EventLoop.cpp): the two queues of callbacks, the eventfd as
--   a counter with its event source, the size of the event array, and a round of `run`, over any
--   type of callbacks. `Running.run` takes the answers of epoll_wait one after the other, and
--   `Ending.destroy` is the destructor. `Wakeup.Step` has the steps of posting threads and of the
--   loop's thread in any interleaving, and `History` the callbacks that they post and take.
-- - InetAddress (mutiplex/InetAddress.h, src/InetAddress.cpp): the functions of libc are the fields
--   of `Libc`, and `Laws` has what their manuals promise; `resolve` takes the candidates with the
--   answers of their sockets.
-- - ServerSocket, Acceptor (mutiplex/ServerSocket.h, src/ServerSocket.cpp, mutiplex/Acceptor.h,
--   src/Acceptor.cpp): an operation takes the answers of the system calls and returns the calls
--   made.
-- - TcpServer (mutiplex/TcpServer.h, src/TcpServer.cpp): `serve` is an accepted connection, from the
--   answer of accept4 to the established callback; `Threads.Step` has the steps of the loops'
--   threads, of shutdown, and of the thread that waits in `run`; `Startup.start_thread` is what a
--   thread does up to its loop's `run`, `Serving` has such a thread with the connections that its
--   acceptor, and connectors on its loop, make, and `Threads.Ending.destroy` is the destructor.
-- - Connector (mutiplex/Connector.h, src/Connector.cpp): a `Life` is a connector with what it did
--   and the connection that it made; its events go through `EventSource.handle_events`. `Attempt` is
--   start_connect and an event, `Handing` what the loop gets from it, and `Ping` the client of
--   benchmark/mutiplex/pingpong/client.cpp.
-- - Timestamp (mutiplex/Timestamp.h, src/Timestamp.cpp): localtime_r and the padded numbers of
--   snprintf are the fields of `Clock`.
-- - Base: bytes and blocks, words, the `int` of C++, the errors that C++ code may run into (a failed
--   assertion, an access outside a block, a null or dangling pointer), and list lemmas.
--
-- Parameters: malloc (only the length of its blocks is known), the kernel's answer to a write,
-- memcmp, the application. The loop over `task_queue_` runs on fuel (in Connection its result says
-- whether the queue was emptied, in EventLoop the queue that is left is part of it, and a `run` that is
-- left with one is `in_tasks`); for a
-- connection `Draining.rounds` is the fuel that the queued tasks need, and a theorem that the queue
-- is emptied holds with any larger amount. The outer loop of `run` takes one answer of epoll_wait
-- per round. Fuel of the other loop, the 31 rounds of roundup_pow_of_two, is its bound.
--
-- Not modelled: logging; the Boolean that Connection::write returns, which repeats its test for a
-- closed connection; timestamps where the library only passes them on (the datetime server has its
-- own as a parameter); the race on a connection's state between its loop and a thread that calls it;
-- calls on a connection after its loop is gone; `free` (a block is not used after it, but for the
-- destroyed connection that `World.destroyed` stands for); an exception that leaves one of
-- TcpServer's threads, beyond the error that the start of the thread returns.
pub mod Base
pub mod CircularBuffer
pub mod ByteBuffer
pub mod EventSource
pub mod Slice
pub mod Connection
pub mod EventLoop
pub mod InetAddress
pub mod ServerSocket
pub mod Acceptor
pub mod TcpServer
pub mod Connector
pub mod Timestamp
