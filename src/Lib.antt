-- ===== src/Lib.antt =====
-- dpdk_practice: packet forwarders on the DPDK library. This library models the logic of l2fwd,
-- of the parts of l3fwd that all its lookup methods share, and of all four methods.
--
-- l2fwd (l2fwd/main.c) reads its options, checks the port pairs of --portmap against the port
-- mask, fills the table of destination ports, gives each enabled port to a core, and then each
-- core polls its ports and hands what it receives to the transmit buffer of the destination.
-- L2fwd/Args models the options (l2fwd_parse_args and the parsers it calls), L2fwd/PairCheck
-- check_port_pair_config, L2fwd/DstPorts and L2fwd/LcoreMap the two set-up loops of main, and
-- L2fwd/Forward l2fwd_mac_updating, l2fwd_simple_forward and l2fwd_main_loop.
--
-- l3fwd reads rule files and the triples of --config, looks up a destination port for each
-- packet, checks and rewrites the header, groups the packets of a burst by port and puts them
-- into transmit buffers. L3fwd/Routes models the rule files (l3fwd/lpm_route_parse.c,
-- l3fwd/em_route_parse.c and the macro of l3fwd/l3fwd_route.h), L3fwd/Options the command line
-- of l3fwd/main.c (parse_args and the parsers it calls), L3fwd/Config the checks and the queue
-- tables that it makes of --config and, in Config/TxQueues, the loop of
-- l3fwd_poll_resource_setup that gives the cores their transmit queues, L3fwd/Rfc1812 the header checks (l3fwd/l3fwd.h,
-- l3fwd/l3fwd_common.h, l3fwd/l3fwd_sse.h), L3fwd/Group and L3fwd/OnePort the grouping
-- (common/pkt_group.h, common/sse/port_group.h, l3fwd/l3fwd_sse.h), L3fwd/Tx the transmit
-- buffers (l3fwd/l3fwd.h, l3fwd/l3fwd_common.h), and L3fwd/Multi what puts these together
-- (send_packets_multi). L3fwd/Polling is the polling loop that em_main_loop, fib_main_loop and
-- acl_main_loop share, for any way of sending a burst, and the MainLoop modules of the methods
-- give it theirs. L3fwd/Event is a worker of the event mode (the event loops of
-- l3fwd/l3fwd_lpm.c and l3fwd/l3fwd_fib.c, and l3fwd_event_worker_cleanup of
-- l3fwd/l3fwd_event.c), as steps of which each reads force_quit once, with the vectors of
-- l3fwd/l3fwd_event.h (filter_bad_packets, process_event_vector) in L3fwd/Event/Vector.
-- L3fwd/Setup puts the routes of the enabled ports into the tables (setup_lpm, setup_fib), and
-- L3fwd/Setup/Routing follows them to the ports of a burst. L3fwd/Lpm models the lookup by
-- longest prefix match and its main loop, which keeps statistics (l3fwd/l3fwd_lpm.c,
-- l3fwd/l3fwd_lpm_sse.h), L3fwd/Acl the access control lists (l3fwd/l3fwd_acl.c,
-- l3fwd/l3fwd_acl_scalar.h), L3fwd/Fib the forwarding information base (l3fwd/l3fwd_fib.c), and
-- L3fwd/Em the exact match, from the population of its tables to the ports of a burst
-- (l3fwd/l3fwd_em.c, l3fwd/l3fwd_em_hlm.h, l3fwd/l3fwd_em_hlm_sse.h). The definitions keep the
-- names of the functions; a function of the source that has loops is several definitions, one
-- for each.
--
-- Links models check_all_ports_link_status, which l2fwd/main.c and l3fwd/main.c both have.
--
-- Base holds the shared names and lemmas, Clib the functions of the C library that the parsers
-- call. Numbers are natural numbers, with the wrap-around of a machine word written out where
-- the code can reach it. Arrays are functions of the index, or lists where their length matters.
-- A packet is the number of its buffer. Calls of DPDK, of inet_pton, of fopen, fseek and calloc,
-- and the constants of the DPDK configuration are parameters; the devices come with the law that
-- they take or give no more packets than asked for. The clock of a main loop is the list of its
-- readings, one for each turn.
--
-- Loops are structural, by the rounds left. The search for a core runs on RTE_MAX_LCORE rounds,
-- the copying loop and the loop over the groups of a burst on as many rounds as there are
-- packets, and the loop over the parentheses of an option on one round more than the text has
-- bytes, of which each round takes at least one.
--
-- In L3fwd/Em a packet's key is its 32-bit words; the masks, which the code sets when it
-- populates the tables, are constants, since the tables are populated before any lookup.
--
-- A transmit buffer is a function of the index too: where its length may come to MAX_PKT_BURST, the
-- theorems ask for room. What a core has sent, freed and received is kept in lists beside the
-- code's state (wire, freed, received); in L3fwd/Tx/Flows and L3fwd/Polling/Order these are tied to
-- the calls of rte_eth_tx_burst and rte_eth_rx_burst that the code makes.
--
-- Not modelled: the event loops of the exact match, which read the events as pointers, the
-- vector code for other machines than x86, the creation of devices, of hash tables and of access
-- control contexts, which only calls the library, all output, and the separate tools rss_verify,
-- x710_check and mempool_cache_test.
pub mod Base
pub mod Links
pub mod Clib
pub mod L2fwd
pub mod L3fwd
