-- ===== src/Lib.antt =====
-- A file transfer over UDP with selective repeat: a sender cuts its input in packets and keeps them
-- in a window until they are acknowledged, and a receiver writes the payloads in order and keeps
-- what arrives early in a window of its own.
--
-- The parts of the program, and the files that model them:
--   * Segment (src/lib/segment/packet_implem.c, packet_interface.h): the packets. `Pkt` is
--     `struct pkt`, a function of the source is the definition of the same name; `pkt_encode` and
--     `pkt_decode` are in Segment/Encode and Segment/Decode, cut in the steps that their comments
--     name. Segment/Wire states the wire format from the header comment, without the code;
--     Segment/Accepts and Segment/Again are about arbitrary bytes.
--   * Queue (src/lib/queue/queue.c): the sending window, a ring of 31 pointers. Queue/Model says
--     which packets a queue holds; Queue/Refine, Get, Order, Search and Update are its
--     operations against that list.
--   * SortedList (src/lib/sorted_list/sorted_list.c): the receiving window, one slot for each number
--     from the awaited one on. Its children are about single operations.
--   * Stats (src/lib/stats/stat.c): the counters. What is printed is a list of names and numbers.
--     Stats/Totals says what the counters add up to; Sender/Counts and Receiver/Counts use it.
--   * Receiver (src/lib/send_data/read_write_loop_server.c): the variables of the loop are the record
--     `Receiver`, and `step` is one round of it. Receiver/Stream says what the packets of a stream of
--     chunks are; Drain, Deliver, Store, Step, Truncated, Any and Closing
--     are about the branches of a round, and Stale runs it on a window that is not NULL at the start.
--   * Sender (src/lib/send_data/read_write_loop_sender.c): the record `Sender`, new data, sending
--     again and acknowledgements; Sender/Loop has the rest of a round, and `step`. Sender/Window,
--     Fresh, Acked and Cumulative are about new data and acknowledgements, Kept, Resend and Timer
--     about the packets that go out again, Answer about what the socket gives, Closing, Whole,
--     Failing and Finish about a round, and Clock about the timestamps.
--   * Net: both loops on a link. A state (`System`) has the two loops, the chunks read and written
--     and every datagram sent; a step is a round of one loop. The link hands over any datagram of
--     the past, any number of times or never, garbled bytes, or truncated data packets. Net/Sound
--     has the invariant, Net/Run, Turn and Received are about the rounds and it, Net/Delivery and
--     Net/Progress about what follows.
--     Net/Told and Net/Parting are about the last acknowledgement and the last packet,
--     Net/CatchUp and Net/Finish about the end of a transfer. In these the system calls succeed; in
--     Net/Counters, about the statistics, they give back anything.
--   * Programs (src/sender.c, src/receiver.c, src/lib/send_data/create_socket.c, real_address.c and
--     wait_for_client.c): the arguments, the descriptors and the exit codes.
--   * Log (src/log.c): `dump`, with a line as its offset and the bytes of its two columns.
--   * UnitTests (tests/packet_test.c, rec_window_test.c, send_window_test.c): what the unit tests
--     assert, run on the model.
-- The loops call the packets, the windows and the counters as the source does. A round takes what
-- its system calls give back (poll, read, recv, send, write, malloc, the clock) as a record `Round`.
--
-- Conventions: a C integer is a natural number with its wrap-around written out; a signed `int` is
-- its bit pattern. A read or write outside an array, or through NULL, is `none` (Common/Faults), and
-- `Returns P r` says that the code runs without such a fault and its result satisfies `P`. A pointer
-- to a packet of the sending window is the index of its slot. A block that `malloc` hands back has
-- any content, also `window[]` of the receiver, which `new_list` does not clear: that it is NULL at
-- the start is a hypothesis of the theorems that need it. The checksum of zlib is the parameter
-- `Zlib`, on which nothing is assumed.
--
-- Fuel: `Queue.get_loop` has 33 rounds (it is back at the oldest packet after 32), `SortedList.peek`
-- 32 (`ptr` has left the array of 31 slots then), `drain_loop` 32 and `ack_loop` 32 (a window has 31
-- packets), `resend_loop` 33 (32 numbers are looked up before the first one comes again), the loops
-- of `dump` 17 in a line of 16 bytes and one more than the bytes outside.
--
-- Bounds: sequence numbers are modulo 256, so a datagram that is too old is taken for a new one. A
-- datagram is on the link while at most 99 chunks are written after it was sent; a stream chunk has
-- 1 to 512 bytes.
--
-- Not modelled: the texts that the programs print, the address structures of the socket API,
-- `free`, CUnit, the test scripts, and link_sim_repo (a copy of another project).
pub mod Common
pub mod Segment
pub mod Queue
pub mod SortedList
pub mod Stats
pub mod Receiver
pub mod Net
pub mod Programs
pub mod UnitTests
pub mod Log
pub mod Sender
