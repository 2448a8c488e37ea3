-- ===== src/Lib.antt =====
-- A verification library for the MQTT client core of this repository, the C code under
-- Sources/MosquittoC, which the Swift classes of Sources/Artemisia wrap.
--
-- The core receives a packet into a buffer, reads its fields one behind the other (packet_datatypes.c)
-- with the properties of MQTT 5 among them (property_mosq.c), checks texts (utf8_mosq.c) and topics
-- (util_topic.c), and keeps the messages that are not acknowledged in one queue for each direction
-- (messages_mosq.c), with quotas and identifiers (util_mosq.c). What it sends it writes with the same
-- two files, and packet_mosq.c moves the packets of either direction over the socket, piece by piece.
-- The handlers (handle_*.c) take a received packet apart, change the queues, call the client back and
-- answer through the senders (send_*.c). A module of the list below uses those above it.
--
-- Base: the numbers, lists and tests all modules share, and `Rc`, the return codes of
--   include/mosquitto.h. A byte is a number, and a C string is the list of its bytes before the NUL.
-- Utf8: `validate_utf8` is mosquitto_validate_utf8 of Sources/MosquittoC/utf8_mosq.c, with its loop,
--   the decoding of the first byte and the tests of a code point as functions of their own. The
--   buffer is all memory that may be read from the string on, and a read behind it is a result of
--   its own. The fuel of the loop is `len`, since every round goes on by at least one byte. Utf8/Encode
--   is an encoder that is written from RFC 3629 and not from the code.
-- Packet: `Packet` is struct mosquitto__packet of include/mosquitto_internal.h; Packet/Read and
--   Packet/Write hold packet__read_* and packet__write_* of Sources/MosquittoC/packet_datatypes.c
--   under the names without `packet__`. A function takes the packet and returns it with its result.
--   Sums with `pos` wrap at 2 ^ 32; an assert that fails, a read or write outside the buffer and an
--   error code are each a result of its own. The loop of a variable byte integer has 4 rounds when
--   it is read and 5 when it is written, which the code bounds itself. Packet/RoundTrip joins the
--   two sides.
-- Property: `Property` is struct mqtt5__property of include/property_mosq.h. Property/Read,
--   Property/Write and Property/Check hold property__read_all, property__write_all,
--   property__get_length_all and the checks of Sources/MosquittoC/property_mosq.c with what they
--   call, Property/Store and Property/Lookup the functions that add a property
--   and look one up, and Property/Copy mosquitto_property_copy_all. The loop that reads has the
--   announced length as its fuel, since each property takes at least one byte of it.
--   Property/Wire states what bytes a property stands for, for both sides.
-- Topic: the checks of topics of Sources/MosquittoC/util_topic.c, by NUL and by length. Topic/Match
--   is mosquitto_topic_matches_sub2 of that file, with the branches of its loop as functions of
--   their own; the loop goes on in the filter in each round. Topic/Levels
--   states what MQTT says of the levels of a topic filter and of their matching.
-- Messages: Messages/Defs has the messages and the two queues of include/mosquitto_internal.h, and
--   Messages.antt message__queue, message__release_to_inflight, message__remove, message__delete,
--   message__out_update, message__reconnect_reset, message__retry_check and message__cleanup_all of
--   Sources/MosquittoC/messages_mosq.c, with the quotas and mosquitto__mid_generate of util_mosq.c.
--   Each runs with its mutex held, so it is one step from a state to a state. The links of utlist
--   are the order of a list. Messages/Starts says what messages are sent when places are free, and
--   Messages/Retry what is sent again.
-- Topic/Tokens: mosquitto_sub_topic_tokenise of Sources/MosquittoC/mosquitto.c.
-- State: the states of a client and the versions of the protocol of include/mosquitto_internal.h.
-- Outgoing: the sending half of Sources/MosquittoC/packet_mosq.c, from packet__alloc and
--   packet__queue to packet__write, and do_client_disconnect of connect.c. The socket's answers to
--   net__write are a list; where it ends, the call waits. The fuel of the outer loop is one more
--   than the packets in the queue, since each round takes one, and the inner loop goes on in the
--   answers. Outgoing/Stream sees the queue as one stream of bytes, and Outgoing/Drain says when it
--   runs dry.
-- Incoming: packet__read of packet_mosq.c in its three parts. What arrives is a list of bytes, of
--   gaps where one read ends, of pauses where nothing has arrived yet, and of ends and failures;
--   Incoming/Socket says what net__read makes of it. The loop over the remaining length has five
--   rounds at most, by the test of the code, and the loop over the body as many as bytes are
--   missing, since each takes one. Incoming/Absorb takes the stream in byte by byte, Incoming/Frame
--   says what bytes a packet has, and Incoming/Delivery joins the calls.
-- Senders: the senders of packets of Sources/MosquittoC/send_mosq.c, with the functions of Packet,
--   Property and Outgoing they call. Senders/Publish, Senders/Connect, Senders/Request and
--   Senders/Disconnect are send_publish.c, send_connect.c, send_subscribe.c with send_unsubscribe.c,
--   and send_disconnect.c. Senders/Puts joins allocation, writing and queueing, and a module Wire
--   says what bytes a packet has.
-- Handlers: handle_pubackcomp.c, handle_publish.c, handle_pubrec.c, handle_pubrel.c,
--   handle_connack.c, handle_suback.c, handle_unsuback.c, handle_ping.c, handle_disconnect.c,
--   handle_auth.c and read_handle.c. A handler is a chain of steps on the client, each of which goes
--   on, returns a code or runs into a fault; callbacks and packets that are sent are events in a
--   list. The loop over the granted QoS has the rest of the packet as its fuel, since each round
--   takes a byte.
-- Alias: the table of topic aliases of Sources/MosquittoC/alias_mosq.c.
-- Will: will__set and will__clear of Sources/MosquittoC/will_mosq.c.
-- Actions: mosquitto_publish_v5, mosquitto_subscribe_multiple, mosquitto_unsubscribe_multiple and the
--   functions that call them, of Sources/MosquittoC/actions.c, on the queue of packets and the queues
--   of messages. The tests of the arguments are a list, of which the first that fails is the answer.
-- Options: the will, the name and the password, and mosquitto_int_option, of
--   Sources/MosquittoC/options.c.
-- Socks: socks5__send and socks5__read of Sources/MosquittoC/socks_mosq.c, and in Socks/Options
--   mosquitto_socks5_set. The loop over an answer has the bytes that are missing as its fuel, since
--   each round takes one at least.
-- Loop: mosquitto_loop_forever of Sources/MosquittoC/loop.c, with mosquitto_reconnect_delay_set of
--   options.c. The two loops take their turns from a list of what mosquitto_loop, the sleep and
--   mosquitto_reconnect answer; where it ends, the loop waits.
--
-- Parameters: whether malloc, calloc, realloc and strdup give a block (`mem`), inet_pton, what
-- net__socket_connect_step3 returns, what send__publish returns for a message (`send`), what the
-- senders return to a handler (`answer`), what the socket gives and takes, handle__packet for
-- packet__read, packet__read for socks5__read, and the time mosquitto_time (`now`, `clock`).
--
-- Not modelled: memory that is freed, mutexes, logging, the assertion of message__queue, the byte
-- that wakes up select, the parts of the code under WITH_BROKER, and what does input and output
-- (net_mosq.c, tls_mosq.c, mosquitto_loop of loop.c). The options of TLS, the creation of a client
-- and the tables of names of property_mosq.c are not modelled either.
pub mod Base
pub mod Utf8
pub mod Packet
pub mod Property
pub mod Topic
pub mod State
pub mod Messages
pub mod Outgoing
pub mod Incoming
pub mod Senders
pub mod Handlers
pub mod Alias
pub mod Will
pub mod Actions
pub mod Options
pub mod Socks
pub mod Loop
