-- ===== src/Lib.antt =====
-- A model of the software router of lab1/router and of the transport protocol cTCP of lab3, both in
-- C, and the theorems about them.
--
-- The program: `main` of lab1/router/sr_main.c loads a routing table, connects to a server and then
-- handles one command after another. A packet command reaches `sr_handlepacket` of sr_router.c, which
-- answers ARP requests, takes ARP replies into the cache of sr_arpcache.c, answers IP packets for
-- the router's own addresses, and forwards the others by the routing table of sr_rt.c and the
-- interface list of sr_if.c. A frame whose gateway is not in the cache waits in the cache's request
-- queue. A thread beside the loop expires entries and repeats or gives up requests. Every frame
-- leaves by `sr_send_packet` of sr_vns_comm.c.
--
-- cTCP of lab3 is a program of its own. Its library calls the handlers of ctcp.c: `ctcp_read` makes
-- segments of the input, `ctcp_send_sliding_window` sends what the window admits, `ctcp_receive` takes
-- acknowledgements and gives data to the output, `ctcp_timer` repeats and tears down. On every
-- acknowledgement ctcp.c asks the state machine of ctcp_bbr.c how fast it may send.
--
-- The files:
--   Base                what the others share: Boolean tests, lists over native numbers.
--   Checksum            `cksum` of sr_utils.c; Checksum/Closed and Checksum/Change are about its
--                       value.
--   Router/Headers      the packed structs of sr_protocol.h, loads and stores.
--   Router/State        `struct sr_instance` and what it holds.
--   Router/Interfaces   sr_if.c, and `sr_handle_hwinfo` of sr_vns_comm.c.
--   Router/Table        sr_rt.c, `lpm` of sr_router.c, `sr_verify_routing_table` of sr_main.c;
--                       Table/Load is `sr_load_rt`.
--   Router/ArpCache     the entries and the request queue of sr_arpcache.c.
--   Router/Send         `sr_send_packet`, and the two ICMP senders of sr_router.c.
--   Router/Arp          `handle_arpreq`, `sr_arpcache_sweepreqs`, `sr_arpcache_timeout`.
--   Router/Handle       `sr_handlepacket` and the handlers below it.
--   Router/System       the main loop and the timeout thread as a run over events.
--   Router/Server       the switch over the server's commands, and the main loop over them;
--                       Server/Socket reads the commands from the socket, with Server/Framing and
--                       Server/Loop about what comes of it.
--   Bbr                 ctcp_bbr.c; Bbr/Startup and Bbr/Pacing are about single handlers, Bbr/Ack is
--                       the block of `ctcp_receive` in ctcp.c that takes an acknowledgement.
--   Ctcp/Segment        `ctcp_segment_t`, its bytes, and the checksums of sender and receiver.
--   Ctcp/State          `struct ctcp_state`, and what a handler can come to.
--   Ctcp/Window         making segments, and the sliding window; its children are about what sending
--                       leaves alone.
--   Ctcp/Receive        `ctcp_receive`, `ctcp_output`, `ctcp_destroy`; Receive/Deliver is about the
--                       output, Receive/Sheds about the segments that are held, Receive/Fuel about
--                       the loop over them, Receive/Cksum about the checksum.
--   Ctcp/Timer          `ctcp_init`, `ctcp_timer`, `ctcp_read`.
--   Ctcp/Numbers        the numbers of the segments that are held.
--   Ctcp/Output         the output queue of ctcp_sys_internal.c; Output/Stream, Output/Space and
--                       Output/Closes are about its bytes, its bound and its end.
--   Ctcp/Datagram       segments as TCP datagrams: `create_datagram` and `cksum_tcp` of
--                       ctcp_sys_internal.h, `convert_to_datagram` and `convert_to_ctcp` of
--                       ctcp_sys_internal.c; Datagram/RoundTrip is about both conversions.
--   Ctcp/Connect        `recv_filter`, `tcp_handshake`, `tcp_new_connection` and `create_tcp_seg` of
--                       ctcp_sys_internal.c; Connect/Filter and Connect/Delivery are about the
--                       packets of a connection, Connect/Agreement is about the handshake.
--   Ctcp/Unreliable     `conn_send` of ctcp_sys_internal.c; Unreliable/Processes is about its forks,
--                       Unreliable/Corruption about the bit that it flips, Unreliable/Detection about
--                       the receiver of it, with the bytes of Unreliable/Layout.
--   Ctcp/Resets         `create_tcp_rst` and `send_resets` of ctcp_sys_internal.c.
--   Ctcp/Input          `conn_input` of ctcp_sys_internal.c, and `need_timer_in` of its header;
--                       Input/Lines and Input/Due are about them.
--   Ctcp/MainLoop       `do_loop` of ctcp_sys_internal.c, over all connections of a host;
--                       MainLoop/Routing and MainLoop/Arrival are about a segment that arrives,
--                       MainLoop/Full is about a server that is full.
--   Ctcp/LinkedList     ctcp_linked_list.c on a heap of nodes; LinkedList/Chain is about linked nodes,
--                       Refines, Remove and Loops about the operations.
--   Ctcp/Events         a connection over its calls; Events/Holding is about the sender, Events/Transfer
--                       about sender and receiver, with the segments of Events/Pieces,
--                       Events/GivesUp about a silent peer.
--   Router/Samples, Router/Tests, Checksum/Tests, Bbr/Tests, Ctcp/Samples, Ctcp/Tests,
--   Ctcp/OutputTests, Ctcp/NetTests, Ctcp/SendTests
--                       constants, and the theorems at them.
--
-- How the state and the operations correspond to the code. `Sr` is `struct sr_instance`: the
-- interface list, the routing table, the cache, and `wire`, the frames written to the socket. Linked
-- lists are lists; a packet is the list of its bytes, and `len` the list's length. Fields of a
-- header hold the word that a little-endian host loads; `swap16` is `htons` and `ntohs`. A handler
-- takes the state and returns the new one under `Option`: `none` is undefined behaviour, that is a
-- null pointer that is followed, a failing assertion, or an access past the end of a buffer. The
-- time is a number of seconds that the caller passes. Unsigned arithmetic that can wrap is written
-- out: the 32-bit sum of `cksum`, the ttl, the counters and differences of BBR, the sequence numbers
-- and the window size of cTCP. `CtcpState` is `struct ctcp_state`, with the linked lists as lists, and
-- with `clock`, the segments that were sent and the buffers that were output. A handler of cTCP comes
-- to `ok`, to `exited` where a client exits, or to `fault`, undefined behaviour. A handler reads one
-- time, and waiting to send moves it on. A `Library` of Ctcp/MainLoop is the program's variables with
-- the connections, `Remote`, `Conn` and `CtcpState` of each; a `Poll` is what one round of `do_loop`
-- meets. The fields of a `Datagram` hold the ports, numbers and window in host order. `conn_send`
-- comes to one `Fate` for each of the processes that its forks make.
--
-- Bounds and fuel. The loop that folds the carries of `cksum` has fuel 3, where two rounds are
-- enough for any 32-bit sum. The loop of cTCP over the acknowledged segments has the number of all
-- segments that are held as fuel, since each round takes one away. The loops that wait for a socket
-- go over the list of what its calls return, and say where it ends before they do. The loops of the
-- linked list that follow pointers have the length that the list records as fuel, which is the
-- number of its nodes. All other loops are structural.
--
-- `handle_arpreq` gives up a request after five tries. Where a waiting frame carries the hardware
-- address of one of the router's interfaces, it then reads an IP header far behind the list node of
-- that frame, which is undefined behaviour and `none` here.
--
-- Parameters. `scan` and `aton` stand for `sscanf` and `inet_aton`, and `raw` for what `malloc`
-- returns; `handled` for whether the handlers of the rtable and authentication commands, which leave
-- `Sr` alone, succeed. `cwnd` is BBR's floating-point product. What `recv` and `read` return are
-- parameters too, and the numbers of `rand` and `rand_percent`; `stale` is what the receive buffer
-- holds behind a packet. Of cTCP, `Floats` are the floating-point results that become integers,
-- `Platform` says whether the program is a server, what uninitialised locals hold, and for each list
-- node that `ctcp_receive` frees what reading its `next` comes to: the old successor, a null pointer,
-- or undefined behaviour, which is `fault`. `beyond` is the memory behind the bytes received, `space`
-- what `conn_bufspace` returns, and `Write` what a call of `write` returns. A new node of the linked
-- list is a parameter.
--
-- Not modelled: connecting to the server and authenticating (sockets, with the
-- SHA-1 of lab1/router/sha1.c), the packet dump of sr_dumper.c and all printing, the unfinished
-- lab1/router/sr_nat, failing writes and allocations, and a round of the timeout thread in the middle
-- of a handler. Of lab3 the thread around `send_resets`, the reading of the options and the
-- configuration, the start of a server's programs, the logging, and the calls of sockets and
-- polling. `conn_free` writes through a pointer to a variable of `conn_add` that is gone, which has
-- no model either. lab0, lab2 and lab1/pox_module are scripts and configuration.
pub mod Base
pub mod Checksum
pub mod Router
pub mod Bbr
pub mod Ctcp
