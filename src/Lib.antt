-- ===== src/Lib.antt =====
-- Verification of LuDLC, a data link protocol for small systems: the protocol core, src/lib/ludlc.c,
-- the framings that carry its packets, src/lib/ludlc_hdlc.c, src/lib/ludlc_raw.c and
-- src/lib/ludlc_cobs.c, the queue of the POSIX port, src/lib/platform/posix/kfifo.h, and the checksums
-- of the Linux port, src/lib/platform/linux/ludlc_csum.c.
--
-- The core keeps one struct ludlc_connection for each link. A caller queues packets
-- (ludlc_enqueue_data, ludlc_send_urgent_data) and closes or opens sessions (ludlc_send_disconnect,
-- ludlc_handle_disconnect, ludlc_connect). The transport asks for frames (ludlc_get_packet_to_send)
-- and hands in those that arrive (ludlc_receive). Every packet accepted is confirmed to its caller
-- through a callback. An operation works under the connection's lock, and runs callbacks outside it.
--
-- Each operation is a function from the connection to the connection it leaves, what it returns, and
-- the list of what it does to the outside, in order: the callbacks it runs and the transmitter it
-- wakes. The files:
--   Core/State        struct ludlc_connection and its parts (src/lib/include/ludlc_private.h,
--                     src/lib/include/ludlc_packet.h, src/include/ludlc_proto.h, src/include/ludlc.h)
--   Core/Send         ludlc_enqueue_data, ludlc_send_urgent_data, ludlc_send_disconnect
--                     Send/Gap is on an urgent packet handed in while a session ends
--   Core/Report       ludlc_confirm_unlocked, ludlc_seq_reset_if_drained, the callbacks
--   Core/Disconnect   on_disconnect_lock, ludlc_disconnect_core, ludlc_handle_disconnect,
--                     ludlc_connect
--   Core/Ack          rx_handle_ack, rx_handle_nak, rx_gap
--   Core/Handshake    rx_handle_handshake; Handshake/Reports is on what it reports,
--                     Handshake/Meet on two ends that hear each other
--   Core/Receive      rx_handle_packet, ludlc_receive; Receive/Order is on the order of delivery
--   Core/Transmit     ludlc_get_packet_to_send; Transmit/Keep and Transmit/Numbered are on what a frame
--                     leaves and carries
--   Core/Channel      ludlc_chan_make, ludlc_chan_id, ludlc_chan_tag; Channel/Tag is on these
--   Core/Init         ludlc_connection_init, ludlc_connection_cleanup; Init/Ready is on what opens
--   Core/Queue        the abstract view: outcomes that wait to be reported, then requests; its children
--                     are on the operations against that view
--   Core/Window, Core/Items   the slots of the window, and the stretch of items between two counters
--   Core/Session      a link between two operations; its children are on each operation with the
--                     callbacks that follow it, and Session/History on calls one after another
--   Core/Tests        links to try the theorems on; Tests/Session has calls one after another
--   Framing/Csum      struct ludlc_csum and the ludlc_csum_* functions
--   Framing/Filling   the loop of the encoders, over what one round does
--   Framing/Hdlc      struct hdlc_state: ludlc_hdlc_enc_prep, ludlc_hdlc_enc_fill, ludlc_hdlc_dec_prep,
--                     ludlc_hdlc_dec_feed. Hdlc/Escape, Hdlc/Encode, Hdlc/Round, Hdlc/Fill and
--                     Hdlc/Sent are on what is written; Hdlc/Decode, Hdlc/Received, Hdlc/Stream,
--                     Hdlc/Bounds, Hdlc/Reject, Hdlc/Train and Hdlc/RoundTrip on what is received
--   Framing/Raw       struct raw_state and its operations, with children in the same way
--   Framing/Cobs      struct cobs_state: ludlc_cobs_dec_prep, ludlc_cobs_dec_feed, framing_cobs_wire_len.
--                     Cobs/Groups and Cobs/Unfold have the encoding; Cobs/Decode, Cobs/Codes,
--                     Cobs/Between, Cobs/Received, Cobs/Resync and Cobs/Bounds are on what is received
--     Cobs/Encode     ludlc_cobs_enc_prep, ludlc_cobs_enc_fill. Cobs/Ahead, Cobs/Look and Cobs/Scan are on the
--                     scan that opens a group, Cobs/Pending has what is still to be written, Cobs/Open,
--                     Cobs/Parts, Cobs/Send, Cobs/Skip and Cobs/Close are on a group from its code octet
--                     to its end, and Cobs/Sent is on whole frames
--   Framing/Announce  ludlc_spi_hdr_put, ludlc_spi_hdr_get (src/lib/include/ludlc_spi_proto.h)
--   Framing/Octets, Framing/Stored, Framing/Counters   octets in memory and in a decoder's buffer, and
--                     the counters of a link
--   Framing/Tests     frames to try the theorems on
--   Posix/Kfifo       struct kfifo (src/lib/platform/posix/kfifo.h); Kfifo/Queue has its octets in order,
--                     Kfifo/Refine is on the operations on one octet against these, Kfifo/Each,
--                     Kfifo/Bulk and Kfifo/Drain on the operations on many
--   Posix/Threads     kfifo_put and kfifo_get in two threads, one load or store at a time;
--                     Threads/Invariant and Threads/Order are on what the threads rely on and get
--   Posix/Tests, Posix/Threads/Tests   queues and threads to try the theorems on
--   Linux/Checksums   the nodes of src/lib/platform/linux/ludlc_csum.c: ludlc_csum_get, ludlc_csum_put,
--                     ludlc_crc_find, ludlc_crc_by_name, __ludlc_crc_register, ludlc_crc_unregister,
--                     ludlc_csum_check, ludlc_link_csum_set. Checksums/Nodes is on the list,
--                     Checksums/Counted has the calls in any order, under rules for registering, and
--                     Checksums/Changed, Checksums/Register, Checksums/Apart, Checksums/Keep and
--                     Checksums/Steps are on their references; Checksums/Calls has the calls with no rule; Checksums/Checked is
--                     on what is registered, Checksums/Link on a link's checksum, and Checksums/Late on
--                     a descriptor that is registered while a link uses it
--   Linux/Tests       a checksum to try the theorems on
--   Prelude           the libraries' names and the helpers that all share
--
-- The build modelled is the multi-threaded one (CONFIG_LUDLC_MT, CONFIG_LUDLC_MULTI_CONN,
-- CONFIG_LUDLC_STATS), with 8-bit IDs, thus 128 sequence numbers, and an 8-bit channel field. IDs and
-- octets are numbers, their wrap-around written out. A pointer is a number, 0 being NULL; the octets
-- at it are a parameter (`memory`) where the core copies them. A NULL connection is not modelled. The
-- loop of ludlc_confirm_unlocked runs on fuel, one more than the turns it can take: every turn but the
-- last takes one of fewer than 128 confirmations or the unnumbered one. It runs to its end in one
-- step: callbacks that call back into the core, and other threads between its turns, are not modelled.
--
-- A framing's encoder is given a packet (enc_prep) and called with whatever room the transport has
-- (enc_fill) until it is not busy; its decoder is given a buffer (dec_prep) and the octets that arrive
-- (dec_feed) until it answers that a packet is complete. A function of the model takes the octets that
-- a call gets, and gives those that it writes. The loop of an encoder runs on fuel, twice the room
-- of the call and one: of two rounds one writes an octet, or is the last. The checksum's code is the port's: a parameter, of
-- which the theorems that need it suppose what the documentation of struct ludlc_csum says, that the
-- receiver of an intact frame computes its constant. ENC_SEND_EOF_F is a field of the encoder, and the
-- reserved octets have their default values.
--
-- Not modelled: the lock and the clock; the timers, but for what they are set to; the rest of the port
-- (src/lib/platform), whose answers are parameters, and of its Linux part all but the checksums'
-- nodes, which count references without the kernel's saturation; orders of the queue's loads and stores
-- that are weaker than one order of all; the table of framings in src/lib/ludlc_framing.c; the pools of objects that the framings keep for a target without a heap;
-- the samples.
pub mod Prelude
pub mod Core
pub mod Framing
pub mod Posix
pub mod Linux
