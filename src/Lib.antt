-- ===== src/Lib.antt =====
-- libquicr: the wire formats and the queues of a media-over-QUIC transport library.
--
-- The program. An application publishes and subscribes tracks of objects. Track handlers
-- (include/quicr/*_track_handler.h) put objects on QUIC streams and datagrams in the formats of
-- include/quicr/detail/messages.h and src/messages.cpp, and take them off again from a
-- StreamBuffer (include/quicr/detail/stream_buffer.h), which holds the bytes of a stream that have
-- arrived so far. Control messages are read and written by the operators of
-- include/quicr/detail/ctrl_message_types.h and src/ctrl_message_types.cpp. Both formats stand on
-- the variable-length integers of include/quicr/detail/uintvar.h. Outgoing objects wait in
-- priority queues (include/quicr/detail/priority_queue.h) of time queues
-- (include/quicr/detail/time_queue.h), events between threads in safe queues
-- (include/quicr/detail/safe_queue.h), and a relay keeps objects in a cache (include/quicr/cache.h).
--
-- The files.
--   Prelude          lists, Boolean tests and words over the native numbers, and Outcome: how a call
--                    ends, with a value, an exception, or outside what C++ defines
--   UintVar          uintvar.h: encode and from_bytes are the constructors, get, size and bytes the
--                    methods; a value is its eight stored bytes
--   StreamBuffer     stream_buffer.h: the buffer is the list of its bytes, and a method that takes
--                    from it returns what it found and what is left. StreamBuffer/Object adds the
--                    parsed data that a buffer carries
--   CtrlTypes        ctrl_message_types: a writer appends to a byte list, a reader returns a value
--                    and the rest of the span; Namespace and Fetch for track namespaces and standalone
--                    fetches, Enums for the enumerations
--   Messages         messages: Types (type bytes and their properties), Extensions (ParseExtensions,
--                    SerializeExtensions), FetchHeader, StreamHeader, and in Object the objects of
--                    subgroups and fetches, datagrams and their statuses. Their operator>> is a switch
--                    over current_pos that falls through, one function per case; it returns whether
--                    it is done, the rest of the buffer and the message as far as it got. Stage has
--                    what resumption means
--   SafeQueue        safe_queue.h: a method is a step, as each holds the mutex throughout
--   TimeQueue        time_queue.h, with the tick that the service reports as an argument
--   Cache            cache.h, likewise, for number keys; Cache/Map is the std::map
--   PriorityQueue    priority_queue.h: time queues by priority and group, and the free ones; Front and
--                    PopFront are one loop, visit, given the time queue's method
--   Track            the track handlers: Publish (PublishObject, ForwardPublishedData), PublishFetch,
--                    Subscribe (StreamDataRecv, DgramDataRecv), Control (Pause, Resume, and how
--                    their updates go to a connection that others share) and Fetch
--                    (fetches, joining fetches).
--                    A handler is a record; its calls of Enqueue and of ObjectReceived are logged in
--                    it, and what they answer is an argument. Deliver carries the calls of a
--                    publisher to a subscriber
--   DataStorage      data_storage.h: slices, the iterator across them and the views
--   TrackName        track_name.h: namespaces, full track names and their hashes
-- Each has its tests, and the runs of its theorems at concrete values, in its child Tests.
--
-- Machine and language. Bytes are numbers below 256, and the machine is little-endian. A sum or a
-- difference of uint64_t or size_t is reduced by 2^64 where the code can wrap around (u64, sub64). A
-- C++ exception is a value of Outcome; what C++ leaves undefined, such as a division by 0 or a read
-- past a span, is undefined.
--
-- Loops. Only ParseExtensions has one that is no structural recursion: it is given as fuel one more
-- than the bytes in the buffer, since a round that goes on takes a byte. unfinished stands for fuel
-- that is used up.
--
-- The step from a publisher to a subscriber in Deliver is that of a transport that takes every call
-- and hands its bytes over in one piece, on a new stream where the call asks for one. A member that
-- the code leaves uninitialised is an argument called unset.
--
-- What is not modelled. The transport (src/transport.cpp, src/client.cpp, src/server.cpp) is not here
-- yet, but for the updates that a subscriber's Pause, Resume and RequestNewGroup send, which Control
-- logs. The function quicr::hash (include/quicr/hash.h) is an argument. The QUIC layer
-- (src/transport_picoquic.cpp) consists of calls and callbacks of picoquic, a submodule; the control message classes are generated at build time;
-- threads and condition variables appear only as the order of steps; memory is not modelled but for
-- the buckets that entries of a time queue refer to, by their index.
pub mod Prelude
pub mod UintVar
pub mod StreamBuffer
pub mod CtrlTypes
pub mod Messages
pub mod SafeQueue
pub mod TimeQueue
pub mod Cache
pub mod PriorityQueue
pub mod Track
pub mod DataStorage
pub mod TrackName
