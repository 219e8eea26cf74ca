-- ===== src/Lib.antt =====
-- A model of reyao, a coroutine network library in C++ (reyao/) with an HTTP server (reyao/http) and
-- an RPC codec (reyao/rpc), and theorems on it.
--
-- The parts and how they meet. A ByteArray (reyao/bytearray.h, bytearray.cc) is the byte buffer that
-- everything else reads from and writes to; SocketStream moves bytes between it and the kernel. The
-- HTTP parsers take their bytes from a SocketStream into a ByteArray and put what they parse into an
-- HttpRequest or HttpResponse; the ServletDispatch chooses the servlet that answers. The TimeManager
-- holds the timers that the event loop waits for. The Epoller knows who waits for which descriptor and
-- hands the coroutines and functions to their workers; the hooked system calls wait by adding the
-- coroutine to the Epoller and suspending it, and look up the descriptor in the FdManager. A Worker
-- takes tasks from its queue and resumes their coroutines; the Scheduler chooses the worker for a task.
--
-- Which file models what:
--   Common         shared types (Outcome for calls that throw), lists, bytes, 64-bit words, and loops
--                  on fuel with what holds of them.
--   Endian         endian.h: byteSwap, byteSwapOnLittleEndian; Endian/Wire: bytes of an integer.
--   ByteArray      bytearray.h, bytearray.cc. The state is the record ByteArray (endian_, writePos_,
--                  readPos_, buf_); write, read, writePrepend, reset, addCapacity (add_capacity, slide),
--                  findCRLF, the integer and string writers and readers (ByteArray/Ints). Pointers are
--                  positions; an access outside the vector is the outcome `fault`.
--   SocketStream   socket_stream.cc: read and write on a ByteArray, over the kernel's answer.
--   Util           util.cc: HexToDec; and strcasecmp, std::stoi, std::find as the sources use them.
--   Http/Headers   the maps of http_request.h and http_response.h, ordered by strcasecmp.
--   Http/Request   http_request.h, http_request.cc. Http/Response: http_response.h, http_response.cc.
--   Http/Parser    http_parser.h, http_parser.cc: the state of HttpParser and the loops that its two
--                  classes share: parseRequest (parse, drain, parse_round), parseHeader,
--                  parseChunkedBody, parseFixedBody. The record Source stands for the calls on the
--                  ByteArray and the stream; Http/Parser/Sources has the ByteArray's and that of a
--                  plain list of bytes, over which the theorems are stated.
--   Http/RequestParser, Http/ResponseParser   the first lines, parseURI, and the message fields.
--   Http/Server    http_server.cc, http_session.cc: handleClient, over the parser and the dispatch; a
--                  response is one send, whose result, which may be short, is an argument.
--   Http/Servlet   http_servlet.h, http_servlet.cc; fnmatch is a parameter.
--   Rpc/Codec      rpc/codec.h, codec.cc: serializeToByteArray, receive, Parse. The protobuf library is
--                  the interface Messages; Rpc/Codec/Serialize and Rpc/Codec/Receive have the theorems.
--   Rpc/Server     rpc/rpc_server.h, rpc_server.cc: registerRpcHandler and handleClient.
--   FdManager      fdmanager.h, fdmanager.cc: the table of descriptors. FixedBuffer: fixedbuffer.h.
--   AsyncLog       asynclog.h, asynclog.cc: the buffers of the log, over FixedBuffer.
--   Epoller        epoller.h, epoller.cc: the table of IOEvents (Epoller/Data) and the operations on it.
--                  Epoller/Spec is the abstract specification, a table of waiters; Epoller/Refinement
--                  relates the two. The calls of epoll_ctl and the tasks handed over are lists.
--   Hook           hook.cc: fcntl, ioctl, setsockopt and the sleeping calls; Hook/Io: do_io, connect,
--                  socket and close. What the kernel answers, and whether the event or the timer
--                  resumes the coroutine, is a script that the loop of do_io goes through. Each worker
--                  has an Epoller of its own, and close acts on that of the worker that runs.
--   Worker         worker.h, worker.cc: the queue and the rounds of Worker::run (run_round), with idle
--                  and canStop. How the coroutine that is resumed comes back (Turn), and whether somebody
--                  else holds it when the worker lets go of it, are arguments.
--   Coroutine      coroutine.h, coroutine.cc: the states of a coroutine, with the assertion of its
--                  destructor (let_go); the size of the stack of stackalloc.cc.
--   Scheduler      scheduler.h, scheduler.cc: the worker that a task goes to.
--   Timer          timer.h, timer.cc: the set of timers, the objects by their address, and each
--                  operation under the mutex as one step (Timer/Steps).
--
-- Conventions. Bytes and words are natural numbers; sums of size_t wrap at 2^64 (Common/Words), an int
-- made of a size_t goes through 2^32. A loop has for fuel a measure of its state: the bytes left to
-- read, plus one inside a chunk; Common/Loop shows that more fuel makes no difference when the measure
-- falls in each round, and the parser's rounds do that. The result `unfinished` stands for a loop that
-- does not end. Times of timers are below 2^63 and intervals are not negative. Where `parse` has used
-- up the kernel's answers and would read on, its result is `waiting`.
--
-- Descriptors are ints that are not negative. The tables of the Epoller and the FdManager compare their
-- sizes as ints (Common/Ints); the theorems are on tables of less than 2^31 entries, which descriptors
-- below 2^30 keep them at, as the tables grow to one and a half times a descriptor.
--
-- Not modelled: the switch of contexts, the start and the join of threads and their locks (a round
-- and an operation on a queue are each one step), sockets and addresses, logging but for its buffers,
-- the RPC client, generated protobuf messages, files (writeToFile, readFromFile, ReadFile),
-- toHexString. std::string, std::vector, std::list, std::map and std::set are modelled by what the
-- sources use of them.
pub mod Common
pub mod Endian
pub mod Epoller
pub mod ByteArray
pub mod Util
pub mod Coroutine
pub mod Worker
pub mod Scheduler
pub mod SocketStream
pub mod Http
pub mod Hook
pub mod Timer
pub mod Rpc
pub mod FdManager
pub mod FixedBuffer
pub mod AsyncLog
