-- ===== src/Lib.antt =====
-- Verification of the C core of common_framework.
--
-- The program is an event-driven application framework with loadable modules. Its centre is the event
-- system: threads fire events, a queue for each dispatch thread takes them by their source, and the
-- dispatch threads call what is bound to an event's id. Drivers such as mod_epoll turn readiness of
-- connections into calls, and the command interface runs registered functions on lines of text.
--
-- Which file models which part:
--
-- Base and its children: the shared names, Boolean tests, lists, C strings as lists of bytes without
-- the final zero (CString), C int values (Int), and decimal numerals (Decimal).
--
-- Event/Memory, Event/Types, Event/Headers: the header lists of events, src/agc_event.c from
-- agc_event_create to agc_event_dup, and agc_event_base_add_header, agc_event_get_header_ptr and
-- new_header. The nodes live in a heap, a function from addresses to nodes; a command ends, crashes on
-- an address without a node, or runs out of fuel. The fuel bounds the walks along a list; the
-- theorems take more fuel than the list has nodes. malloc gives addresses that the caller names.
-- Event/Headers/Chain has the invariant IsEvent: the pointers of the event and the nodes form a list.
--
-- Event/Source, Event/Registry, Event/Nodes: agc_event_alloc_source, the tables event_templates and
-- EVENT_NODES with agc_event_register, agc_event_get_id, agc_event_get_name, agc_event_bind,
-- agc_event_unbind and agc_event_unbind_callback, and the calls that agc_event_deliver makes. An access
-- outside a table is the result `none`.
--
-- Event/Queue, Event/Dispatch: agc_event_fire and agc_event_dispatch_thread. The bounded queues of APR
-- are a parameter, the record QueueOps, with what APR documents as laws; a list with a bound is an
-- instance. A run is any sequence of fired events and rounds of threads, each a single step. A
-- round that finds its queue empty only waits.
--
-- Event/Fast: agc_event_fast_initial and the other functions on events of fixed layout, whose pools
-- are queues of the same interface. A write behind a buffer is the result `none`.
--
-- Utils: agc_separate_string, agc_cut_path and agc_is_number of src/agc_utils.c.
--
-- Api/Stream, Api/Commands: src/agc_api.c. The functions of commands are data, and realloc is a flag.
-- Command lines are split by Utils/Separate.
--
-- Epoll: src/mod/drivers/mod_epoll/mod_epoll.c. epoll_ctl is a parameter, the record EpollOps, whose
-- laws are the documented ones for descriptors in and not in a set.
--
-- Timer: src/agc_timer.c. The tree of nginx under it is a parameter, the record TreeOps, seen as the list
-- of its nodes in order; a sorted list is an instance. Each call and each round of the dispatch
-- thread is a single step; Timer/Refinement has the machine on a sorted list.
--
-- Memory: src/agc_core_memory.c, where agc_memory_destroy_pool queues a pool and pool_thread destroys
-- it; Memory's Run has any calls between any pops. Conn: src/agc_connection.c and, in Conn/Driver,
-- src/agc_driver.c over the routines of Epoll. Conn/Release has the end of agc_gtp_open, which
-- goes through Conn and Memory. agc_memory_alloc asserts that APR gives memory, so an allocation here
-- does not fail.
--
-- Sql: src/agc_sql.c. Sql/Chunks has agc_sql_execute_sql with AGC_MAX_SQL_LEN as a parameter, on fuel
-- that is the length of the text; each round of its loop shortens the text. Sql/Pool has the pool of
-- handles over nested mutexes, the parameter MutexOps of Sql/Mutex, and Sql/Waiting the loop that waits
-- for a handle, where the overflow of its int is a result of its own. Sql/Retry has the functions of
-- src/agc_sql.c and src/agc_db.c that execute a text again after an error; their counts of retries
-- bound the loops.
--
-- Media: the media gateway, src/mod/gateways/mod_media. Media/Types has the structures of
-- media_context.h. Media/Sockets: the counted sockets of server_list_v2 in media_context.c and
-- media_upf_gtp_open, media_gnb_gtp_open and their counterparts in media_gtp_path.c; what
-- agc_gtp_open_v2 gets from the system is an argument. Media/Sessions: the session table of
-- media_context.c, with MAX_MEDIA_SESSIONS as a parameter; the search for an identifier has
-- MAX_MEDIA_SESSIONS rounds, as in the source. Media/Routing: media_gtp_path_recv_cb,
-- media_gtp_packet_filter and media_gtp_send_n3_end_mark. Media/Signalling: the handlers of
-- media_sig_path.c, where an event is what agc_event_get_header gives and the record World what the
-- libraries give. Media/Lbo: the table of the addresses for local breakout, over the
-- parameter HashOps. Media/Echo: media_gtp_path_handle_echo_req. Sessions are reached through the
-- table only, so it holds them by value. A crash, or a write behind an array such as buf_send[1500] of
-- the filter and routing[255] of the responses, is a result of its own.
--
-- Locks: the functions that hold a lock from their first access to the last one are single steps. Not
-- modelled are logging, thread start and shutdown, the JSON form of events, and what src/agc_apr.c,
-- src/agc_json.c, src/agc_mprintf.c and src/agc_rbtree.c take over from other projects.
pub mod Api
pub mod Base
pub mod Conn
pub mod Epoll
pub mod Event
pub mod Media
pub mod Memory
pub mod Sql
pub mod Timer
pub mod Utils
