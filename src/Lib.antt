-- ===== src/Lib.antt =====
-- infod3: an information server with publish and subscribe. Clients of the daemon write keys, read
-- them and subscribe to patterns of keys; a protocol translator turns messages into bytes and back.
--
-- The translator (lib/proto.h) keeps a receive buffer (lib/rxbuf.c), and has three modes: binary
-- packets (lib/protobin.c), whole frames (lib/protofram.c) and lines of text (lib/prototext.c). The
-- daemon (daemon/infod.c) keeps a record for each client, with its subscriptions and the commands
-- that wait for a COMMIT; it reads and writes the store (daemon/store.h), and compares keys with the
-- patterns of its clients (daemon/match.c).
--
-- Files:
--   Prelude       library names passed on, Boolean comparisons, lists over the native numbers
--   Match         daemon/match.c: do_match() with the stack of parentheses as a list, match(),
--                 match_isvalid(). Match/Glob is the language of patterns in PROTOCOL with its
--                 meaning, Match/Valid the grammar, Match/Escape the case of `*` before an escape
--   Rxbuf         lib/rxbuf.c: struct rxbuf as a record, rxbuf_resize() as resize and so on
--   Proto/Base    lib/proto.h and lib/protopriv.h: message numbers, callbacks
--   Proto/Format  lib/protofram.c: to_binary_iov(), the format strings of proto_output()
--   Proto/Framed  lib/protofram.c: recv_framed(), output_framed()
--   Proto/Binary  lib/protobin.c: recv_binary(), output_binary(). Proto/Binary/Feed is a decoder
--                 that takes one byte at a time, which recv_binary() implements
--   Proto/Text    lib/prototext.c: the table of commands; Proto/Text/Output the output buffer,
--                 Proto/Text/Message output_text(), Proto/Text/Input recv_text_1ch() with a handler
--                 for each state, and recv_text()
--   Proto/Front   lib/proto.c: proto_new(), proto_recv() with the detection of the mode,
--                 proto_outputv(); Front/Roundtrip is on two translators in binary mode
--   Store         daemon/store.c: the sorted index, store_find(), store_get(); Store/Search is on the
--                 binary search, Order on strcmp(), Sorted and Changes on the sorted index
--   Store/Record  the records of the file, which is a function from offsets to bytes
--   Store/File    struct store, whose index holds offsets; gaps and store_repack()
--   Store/Alloc   the growth of the file, allocation and release of records
--   Store/Put     store_put() and store_del(); Store/Open: store_file_open()
--   Store/Gap, Layout, Repack, Rounds, Packed  theorems on gaps and on store_repack()
--   Store/Added, Intact, Grown  theorems on store_file_alloc()
--   Store/Corrupt  theorems on a damaged file
--   Links         daemon/list.h: INSERT(), REMOVE() and APPEND() on pointers in a memory; Links/Chain is
--                 on the list that a head leads to
--   Client        lib/info.c: what a client waits for, on_input() and wait_until(), whose reads are a
--                 list; Client/Bound and Client/Reads are on the values for info_readv()
--   Daemon/State  daemon/infod.c: struct client and all_clients; the records are a function of the
--                 file descriptor
--   Daemon/Peer   proto_output_error() of lib/proto.c, over what the daemon asks of a translator
--   Daemon/Store  daemon/store.h: the interface of the store
--   Daemon/Handlers  the branches of on_app_input(): on_sub for CMD_SUB and so on
--   Daemon/Input  on_app_input(), buffer_command(), on_net_accept(), on_net_close()
--   Daemon/Invariant  the well-formed record; Invariant/Input is on on_app_input() as a whole
--   Daemon/Transaction, Subscribe  theorems on BEGIN and COMMIT, and on SUB, UNSUB and who is told
--   Daemon/Run    the daemon's runs as a step relation
--   Server        daemon/server.c: one function per function of the source; Server/State has struct
--                 server, whose two parallel arrays are one list, the callbacks and the system calls
--   Server/Laws   what the theorems take from the callbacks and from poll(), and the invariant's parts
--   Server/Weigh, Doors  sums over the sockets, and how each change of the list changes them
--   Server/Resize, Close, Accept, Listen, Free  theorems on one operation each
--   Server/Poll, Serve  one round of the loop of server_poll(), and the whole call; it has as many
--                 rounds as fuel, twice the number of sockets, which is shown to be enough
--   Server/Steps  the server's runs as a step relation
--
-- A byte is a number, a C string is the list of its bytes before the NUL, and a buffer is the list
-- of the bytes written to it. realloc() is the parameter `can_alloc`, which says which sizes are
-- granted. Callbacks are functions on a world `W`. A failed assert(), abort(), a read of an argument
-- that is not there and a write outside a buffer are outcomes of their own. An unsigned int wraps at
-- 2^32; a size_t has eight bytes, and its sums here stay far below 2^64.
--
-- Loops: greedy_forward gets a round for each byte of the string, and each round drops a byte.
-- recv_text_1ch gets twelve rounds of `goto again` for a byte; every round moves on in the format,
-- which has four elements at most, or to a state that takes the byte.
-- find_loop gets a round for each entry and one more, and the interval gets shorter in each.
-- gaps_end, repack_loop and scan_loop get a round for each eight bytes, the least size of a record.
-- recv_loop gets a round for each byte of the input, and each round takes a byte; that it does not
-- run out is part of the theorems on recv_binary(). playback gets a round for each command in the
-- buffer, and on_app_input two levels of calls, of which the inner ones run outside of BEGIN; that
-- neither runs out is part of the invariant. The other loops recurse on their lists.
--
-- Not modelled: the socket calls of lib, opening and closing the store, the client's connection
-- and the calls of its library, main() and the options, logging; error messages that go to stderr
-- or on_error(), of which only the result of the call is kept; errno, but for the EPIPE of
-- wait_until().
pub mod Prelude
pub mod Match
pub mod Rxbuf
pub mod Proto
pub mod Store
pub mod Client
pub mod Server
pub mod Links
pub mod Daemon
