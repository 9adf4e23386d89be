-- ===== src/Messages.antt =====
-- include/quicr/detail/messages.h and src/messages.cpp: the messages of data streams and datagrams.
-- A parser works on the elements of the stream buffer, since it uses no other part of it. It
-- returns what `operator>>` returns, the buffer and the message afterwards.
pub mod Types
pub mod Stage
pub mod FetchHeader
pub mod StreamHeader
pub mod Extensions
pub mod Object
mod Tests
