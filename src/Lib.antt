-- ===== src/Lib.antt =====
-- A model of the core of libprocess, an actor library in C++ (include/process and src in the
-- repository). A process serves the events of its queue, one thread at a time; the socket manager
-- carries messages to other addresses. Futures and promises carry every asynchronous result; the
-- synchronisation primitives and the HTTP pipe hand out futures; the clock runs delayed work; the
-- time series keep the history of a metric within a capacity.
--
-- Future.antt, include/process/future.hpp: `Future<T>::Data` is the record `Data`, and each critical
--   section of `Future<T>` and `Promise<T>` is a function from it to the new state, the result and
--   the callbacks that the caller then invokes. Future/Promise.antt lists them as `Op`, and a history
--   is a list of operations by any number of threads. Future/Finality.antt, Future/Callbacks.antt:
--   completion, and the fate of every callback.
-- Future/Graph.antt, the same header: futures associated with each other. A pending task is a
--   callback that has still to be invoked, or a registration of `Promise<T>::associate` that has
--   still to be made, and any pending task may run next.
-- Sync, include/process/mutex.hpp, rwlock.hpp and queue.hpp: `Mutex`, `ReadWriteLock` and `Queue`.
--   A promise that waits is a number. A history is a relation on the lock and those that hold it, or
--   a list of calls.
-- TimeSeries.antt, include/process/timeseries.hpp: the map of values is a list by ascending time, and
--   the iterators of `sparsify` are positions in it. The loop of `sparsify` has the number of
--   entries as its fuel, which is enough as every round removes one.
-- Clock.antt, src/clock.cpp and include/process/timer.hpp: the timers, the ticks and the pausing of
--   the clock. The ticks that the event loop has been given and has not run are part of the state,
--   and the time of the event loop is an argument. Clock/Processes.antt: the times of processes.
-- Http/Pipe.antt, src/http.cpp and include/process/http.hpp: the `Pipe` between a writer and its
--   readers. Http/Percent.antt, src/http.cpp: `http::encode` and `http::decode`.
-- Http/Query.antt, src/http.cpp: query strings; `tokenize` and `split` of stout are parameters.
-- Http/Decoder.antt, src/decoder.hpp: `DataDecoder`, as a fold over the callbacks of the http_parser
--   library. The parsing of URLs and gzip are parameters. Http/Streaming.antt, the same file:
--   `StreamingRequestDecoder`, with the calls that it makes on the writers of its pipes.
-- Http/Response.antt, src/encoder.hpp: the texts of `HttpResponseEncoder` and `MessageEncoder`. Numerals, the
--   date and gzip are parameters.
-- Http/Encoder.antt, src/encoder.hpp and src/process.cpp: `DataEncoder` and `FileEncoder`, and the loops of
--   `internal::send`. Its fuel for an encoder is one more than its size, since each call of the socket takes a byte.
-- Collect.antt, include/process/collect.hpp: `collect` and `CollectProcess`, and in
--   Collect/Await.antt `await` and `AwaitProcess`.
-- EventQueue.antt, src/event_queue.hpp: the event queue with a lock, and in EventQueue/LockFree.antt
--   its lock-free version. EventQueue/Linked.antt, src/mpsc_linked_queue.hpp: the linked list below
--   that, where each access of a producer or of the consumer to the list is a step. A node is a
--   number and is made in the step that exchanges the head.
-- Process.antt, src/process.cpp: `ProcessBase::enqueue`, `ProcessManager::resume` and the end of the
--   process in `cleanup`. A thread is the position it has reached, and each step is one access to
--   the state, the flag or the queue of the process, or the service of an event. The run queue is
--   how often the process stands in it. The filter is a parameter: it drops no terminate event where a
--   theorem says so.
-- SocketManager.antt, src/process.cpp and src/socket_manager.hpp: the maps of sockets, with a function
--   for each critical section but the downgrade in `send_connect`, that says what its caller does next. A history in
--   SocketManager/System.antt interleaves them with the loops that send. SocketManager/Links.antt: who
--   is told of an exit. A history in SocketManager/Links/History.antt is a list of calls, beside what
--   they promise: a set of pairs.
-- Sequence.antt, include/process/sequence.hpp: `SequenceProcess`, as the list of its callbacks.
-- Limiter.antt, include/process/limiter.hpp: `RateLimiterProcess`. The interval between permits is a
--   parameter, and so is the time of each call.
-- Common.antt: the names and lemmas that the others share.
--
-- Critical sections are atomic, and the C++ memory model, locks and lifetimes of objects are not
-- modelled: a future that is referred to weakly exists. Times and durations are natural numbers of
-- nanoseconds. Numbers that the source counts in machine words are natural numbers where nothing in
-- the source can reach the bound. Atomic accesses are sequentially consistent. Not modelled are the
-- registry of processes, the run queue of several of them, waiting and settling, the sockets
-- themselves and the parser of HTTP, the decoders of responses, the HTTP server and client, metrics, authentication and
-- subprocesses, which either wait for a model of their own or call the operating system and
-- third-party libraries.
pub mod Common
pub mod Future
pub mod Sync
pub mod TimeSeries
pub mod Clock
pub mod Http
pub mod Limiter
pub mod Sequence
pub mod Collect
pub mod EventQueue
pub mod Process
pub mod SocketManager
