-- ===== src/Lib.antt =====
-- pquic: a QUIC implementation in C whose protocol operations can be replaced by plugins. This
-- library models the core of its receiving side and the writers of its frames as functions over
-- lists and natural numbers and proves what those functions guarantee. Numbers are natural numbers;
-- where the C code works on a word, the wrap-around is written as a remainder, unless the range of
-- the protocol (62-bit offsets) rules it out.
--
-- The parts and where they stand:
--   Base, with Base/Tests, Base/Lists, Base/Words, Base/Digits, Base/Bits and Base/Masks: Boolean
--     tests, list lemmas, machine words and their bits that all parts share.
--   Intformat: picoquic/intformat.c, the integers of fixed and variable length that every frame is
--     made of, with the macros PICOPARSE of picoquic_internal.h, which read them. A writer returns
--     the bytes it writes.
--   Sacks: picoquic/sacks.c, the ranges of packet numbers that were received, and
--     process_ack_of_ack_range of picoquic/frames.c. A packet is looked up there
--     (is_pn_already_received) before it is processed and recorded (record_pn_received) afterwards.
--     The chain of next_sack pointers is a list, and its first item is the one inside the packet
--     context.
--   Stream: picoquic_queue_network_input and picoquic_stream_data_callback of picoquic/frames.c.
--     The queue is a list of blocks; the calls of the application's callback are returned as a
--     list.
--   Connection: picoquic/frames.c and quicctx.c, the streams of a connection. A STREAM frame finds
--     or opens its stream, is checked against flow control, joins the queue of Stream, and what is
--     in order is delivered. A stream is changed at its place in the chain.
--   Header: picoquic_parse_stream_header of picoquic/frames.c, the numbers in front of the data of
--     a STREAM frame, read with the decoder of Intformat.
--   Congestion: picoquic/newreno.c, which moves the window of a path on every notification, and the
--     pacing of picoquic/sender.c that it brings up to date. Congestion/Window is about the window,
--     Pacing about the margin, and Delays about the measurements of the delay.
--   Tickets: picoquic/ticket_store.c, the session tickets of a client: storing one and looking one
--     up, and in Tickets/Serialize a ticket as bytes, in Tickets/File the ticket file.
--   Memory: the pool of fixed blocks of picoquic/memory.c that plugins allocate from.
--   Frames: picoquic/frames.c, the frames of a packet. Frames/Reader has the helpers that move a
--     pointer over the packet: the pointer and bytes_max are the list of the bytes between them,
--     and NULL is the value none. Frames/Parse, Frames/Limits and Frames/Control have the parsers,
--     Frames/Decode the table of the parsers and the loops of picoquic_decode_frames, skip_frame
--     and picoquic_decode_closing_frames, Frames/Process the processing of the frames that change
--     the connection or its streams, and Frames/Write the writers. Frames/Advance, Fields,
--     Progress, Table, Termination, Invariants and Accounts prove what holds of the decoding, and
--     Frames/Reads, RoundTrip and LimitsRoundTrip that what is written is read back; Frames/Lengths
--     and SendQueue are about what the writers share.
--   Packet: picoquic/packet.c, the number of a packet from the low bits that its header carries.
--   ConnectionId: picoquic/util.c, connection ids, their numbers and their lengths in a header.
--   Queue: picoquic/queue.c on a memory of nodes, an operation on which returns nothing where it
--     follows a pointer to no node.
--   Transport: picoquic/transport.c, the transport parameters. Transport/Prepare writes them,
--     Transport/Receive takes one of the peer, and Transport/Extensions goes through all of them.
--     The other files prove that they arrive: Sent has the list of parameters behind the bytes, Run
--     what a run of the loop over them does, RoundTrip what is left of each, Versions the versions
--     in front of them, and Exchange joins both ends; Ends, Errors and Address stand for
--     themselves.
--   Acks: picoquic/frames.c, acknowledgements: the frame that is written from the chain of Sacks,
--     and in Acks/Calls what the peer does with it. Acks/Blocks, Counters and Parts are about its
--     bytes, Ranges about the calls, and Exchange about both ends. The operations on the
--     retransmission queue are a list of calls.
--   Crypto: picoquic/frames.c, the CRYPTO frames that are written from the queue of a stream of the
--     handshake; Crypto/Exchange follows one to the parser.
--   Output: picoquic/frames.c, the STREAM frames that are written from the queue of a stream;
--     Output/FlowControl is about the limits of the peer, with Output/Length and Output/Sent below
--     it.
--   Tests: runs on concrete inputs.
--
-- What calls of malloc answer is an argument. Protocol operations run their default implementation;
-- log output is left out; the application's callback is set and does not call back into the
-- library. Loops follow the lists that they walk, and the loop that reads a variable-length integer
-- counts down the bytes of its length, so no fuel is needed. The loops over the frames of a packet
-- take fuel, one unit for a frame; one more than the packet has bytes is enough, since a round
-- takes a byte at least, but for a STREAM frame whose header is refused, which holds the loop for
-- ever. The loop over the records of a ticket file takes one unit more than the file has bytes,
-- since a record takes four bytes at least, and the loop over the transport parameters one more
-- than they have bytes for the same reason.
--
-- Not modelled: the virtual machine and the management of plugins (plugin.c, protoop.c, ubpf.c),
-- the plugins themselves, TLS (tls_api.c), sockets, logs, packet protection and the packet
-- scheduler (packet.c, sender.c), the opening of files, Cubic, and the vendored allocator and hash
-- code.
pub mod Base
pub mod Intformat
pub mod Sacks
pub mod Stream
pub mod Connection
pub mod ConnectionId
pub mod Congestion
pub mod Frames
pub mod Header
pub mod Tickets
pub mod Memory
pub mod Packet
pub mod Queue
pub mod Transport
pub mod Acks
pub mod Crypto
pub mod Output
pub mod Tests
