-- ===== src/Lib.antt =====
-- HARRY runs nine replicas of an OSPF6 process, the siblings, behind a controller that votes on
-- what they send.
--
-- controller/sib_router.c keeps one entry for each connected sibling. A sibling connects, asks for
-- features, routes and addresses, and is then routing. What routing siblings send to the network
-- bears a transaction id and waits in the sibling's queue until the vote finds a majority of equal
-- messages; the message is then forwarded once to every router, and all queues advance together.
-- ospf6-sibling/ctrl_client.c is a sibling's connection to a controller,
-- ospf6-sibling/ospf6_replica.c its list of the other replicas, among which the oldest is elected
-- the leader, and ospf6-sibling/sibling_ctrl.c the state machine between them: leader election
-- starts when all controllers ask for it, and when it completes the hellos are scheduled.
--
-- What a replica has received it stores in a data base under the packet's transaction id
-- (ospf6-sibling/ospf6_db.c, lib/db.c), and a replica that restarts replays what it and the leader
-- have stored and what arrived meanwhile (ospf6-sibling/ospf6_restart.c). The replicas run OSPFv3
-- (ospf6-sibling/ospf6_lsa.c, ospf6_lsdb.c, ospf6_neighbor.c, ospf6_interface.c, ospf6_message.c and
-- ospf6_flood.c): neighbors describe their LSAs to each other, request those they lack, and flood
-- what is new.
--
-- The modules:
--   Base: names of the libraries, Boolean tests on numbers, and lists measured by native numbers.
--   Message: lib/routeflow-common.h (types and header), lib/rfp-msgs.c (routeflow_alloc_xid,
--     rfpmsg_update_length), lib/rfpbuf.h (rfpbuf_equal). Buffers are lists of bytes on a
--     little-endian machine.
--   Controller.State, .Transition, .Vote, .Packet, .Life: controller/sib_router.h and .c. State has
--     the records; Transition state_transition and the replies; Vote majority_have_msg_rcvd and
--     vote_majority; Packet sib_router_process_packet; Life sib_listener_accept, sib_router_create,
--     sib_router_reuse, sib_router_run, sib_router_destroy and the forwarding functions.
--     Controller.Persisted has a packet's calls of the data base.
--     Controller.Invariant to Controller.Slots hold the proofs, Controller.Tests the tests.
--   Router.State, .Features, .Addresses, .Packet: controller/router.h and .c, with the interface list of
--     lib/if.c: the replies of a router and router_process_packet. Router.Routes and Router.Replies
--     hold proofs, Router.Tests the tests.
--   Sibling.State, .Election, .Ctrl, .Client: the records; the list of replicas and the loop of
--     ospf6_leader_elect; sibling_ctrl_update_state, ospf6_leader_elect, send_ids and fill_id; the
--     operations of ctrl_client.c. The other modules of Sibling hold the proofs and the tests.
--   Database.Riak, .Decimal, .Json, .Ids, .Checkpoint, .Keys: the data base's interface; "%d" of
--     printf and sscanf; the text of packets (ospf6_db_json_header, ospf6_db_put_hello,
--     ospf6_db_put_dbdesc); the numbers of lib/db.c (db_get_unique_ingress_id, db_get_egress_xid,
--     db_set_egress_xid); what ospf6_db.c stores and reads; keys_compare, db_list_keys,
--     db_range_keys and ospf6_db_last_key. Database.Table is a data base in memory with the laws of
--     the interface. The other modules of Database hold the proofs and the tests.
--   Restart.Replay: ospf6_restart_start and ospf6_catchup_start, and
--     ospf6_replica_check_for_slowness of ospf6_replica.c. Restart.Loops to Restart.Slowness hold the
--     proofs, Restart.Tests the tests.
--   Ospf.Lsa, .Lsdb, .State, .Neighbor, .Election, .Checksum: ospf6_lsa.c (ages, ospf6_lsa_compare,
--     ospf6_lsa_is_changed, ospf6_lsa_checksum), ospf6_lsdb.c (add, remove, lookup,
--     ospf6_new_ls_seqnum), the records of neighbors, interfaces and areas, the events of
--     ospf6_neighbor.c, and dr_election of ospf6_interface.c.
--   Ospf.Packet, .Hello, .Describe, .Request, .Update: the receipt of packets in ospf6_message.c.
--     Packet reads fields and makes LSAs of bytes; then ospf6_hello_recv, ospf6_dbdesc_recv,
--     ospf6_lsreq_recv, and ospf6_lsupdate_recv with ospf6_receive, which calls all of them.
--   Ospf.Wire, .Send, .Transmit: the packets that ospf6_message.c sends. Wire has their bytes; Send
--     ospf6_dbdesc_send, ospf6_dbdesc_send_newone and ospf6_lsreq_send; Transmit
--     ospf6_lsupdate_send_neighbor and the two functions that send acknowledgements.
--   Ospf.Flood, .Receive: ospf6_flood.c: ospf6_flood, and ospf6_receive_lsa with
--     ospf6_install_lsa and ospf6_acknowledge_lsa. The other modules of Ospf hold the proofs and the
--     tests.
--   Handshake: a client's requests on the controller's side. Tests: tests of Message and Handshake.
--
-- The conventions. A pointer to a sibling is its place in its array (SibId), so that a handler
-- reads and writes the entry that others, such as leader_sibling, refer to. Effects on the network
-- and on the data base are appended to a list of outputs. A result of `none` is a fault of the
-- program: a null pointer, an index out of bounds, a failed assertion, a text that overflows its
-- buffer, the free of a literal, or a read of the connection of a leader that has disconnected.
-- Other reads of freed memory, as by a send to a sibling that has disconnected, are not modelled. A
-- handler of the controller records its call of db_set_egress_xid among the outputs;
-- Controller.Persisted makes the call, with its own faults. A number that ospf6_db_get_xid copies
-- without a terminator is read together with what is behind it, a field of Riak. Transaction ids wrap at 2^32,
-- and a negative `int` is its unsigned value. What the code reads without having assigned it
-- (keys_compare for "cur_xid", two variables of ospf6_restart_start) is an argument. The debug
-- messages of the controller are on, as their flag is a constant; those of the replicas are a field
-- of the model, since code depends on it. A thread that is scheduled is a Task in a list of results;
-- its handler runs later. The LSAs of the lists of neighbors and interfaces are copies, whose ages are
-- brought up to date where they are read. Arguments called `junk` and `no_value` are what
-- ospf6_flood_interface and ospf6_is_maxage_lsa_drop leave without a value, and `moved` is where a
-- buffer goes when it grows, which the MTU checks depend on.
--
-- The bounds. Every loop is structural recursion on a list, or on a number that the code computes
-- before it, such as the fifty messages of one run of sib_router_run. Only the loop of
-- router_process_addresses has fuel, one round for each byte: each round that goes on takes twelve
-- bytes at least, but for an address of unknown type, at which the loop never ends. So has the loop
-- over the LSAs of an LSUpdate, where each round that goes on takes twenty bytes at least. The printing of
-- a number has ten rounds, one for each digit of a number of 32 bits. A connection's input is the
-- list of the messages that rconn_recv returns, and a history is a list of events, each of which is
-- one callback of the event loop.
--
-- Parameters. The addresses and timestamps of SIS-IS are the record Sisis, whose timestamps can be
-- read from every listed address. The client library of the data base, riack, is the record Riak,
-- where what a write that succeeds has stored is read back and nothing else changes, and
-- ConsistentRiak for buckets of a type. What the transport, the clock and the data base return is
-- an argument of the event.
--
-- Not modelled: failures of sends, sockets and partial reads (I/O); the timeout of
-- acknowledgements, which is never started; the RIB (controller/rib.c); the reading of stored
-- packets by the generated JSON parser; of OSPFv3 ospf6_hello_send, the origination of LSAs, the
-- reference counts of LSAs, and routes (ospf6-sibling/ospf6_route.c, ospf6_spf.c, ospf6_intra.c); the
-- daemons
-- bgp-sibling, punter and zl; and the rest of lib, which comes from other projects.
pub mod Base
pub mod Message
pub mod Controller
pub mod Router
pub mod Sibling
pub mod Database
pub mod Restart
pub mod Ospf
pub mod Handshake
pub mod Tests
