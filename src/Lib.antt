-- ===== src/Lib.antt =====
-- TeaVPN2, a VPN over UDP: a model of the server's core, of the client, and of the two together.
--
-- The program. The server owns a UDP socket and a TUN device. A client says hello (handshake), gets a
-- session, sends its name and password, and is given a private IPv4 address. Then IP packets from the
-- client are written to the TUN device, and packets from the device are routed by their destination to
-- the client with that private address, or sent to all. A reaper thread ends sessions that are idle.
-- The sessions live in an array; a stack holds the free indices, a hash map of 256 by 256 buckets leads
-- from a client's address and port to its session, and a table of 256 by 256 16-bit numbers leads from
-- private addresses to sessions.
--
-- Files, with paths below src/teavpn2 of the repository:
--   Stack, Stack/Lifo, Stack/SelfTest: stack.h (bt_stack_pop, bt_stack_push, bt_stack_init,
--     bt_stack_test), against a list of bounded length.
--   Route, Route/Laws: the table of private addresses in server/linux/udp.h (add_, del_ and
--     get_ipv4_route_map).
--   Session: server/linux/udp_session.c (create_udp_sess, lookup_udp_sess, delete_udp_session, with
--     map_insert_udp_sess and remove_sess_from_bkt as functions of one bucket). Session/Valid is the
--     invariant of the pool; Lookup, Insert, Create, Update and Delete prove the operations;
--     Session/Init is the set-up in server/linux/udp.c.
--   Packet: packet.h as bytes in a buffer, srv_pprep and its kin of server/linux/udp.h, cli_pprep and
--     its kin of client/linux/udp.h, strncpy2 of common.h.
--   Server: struct srv_udp_state, and server/linux/udp_epoll.c: Server/Send (send_to_client), Close
--     (close_udp_session), Handshake (handle_new_client, handle_client_handshake), Auth
--     (handle_clpkt_auth), Event (handle_clpkt_tun_data, handle_clpkt_reqsync,
--     __handle_event_from_udp, _handle_event_from_udp), Receive (handle_event_from_udp), Tun
--     (handle_event_from_tun, route_packet, broadcast_packet), Reaper (zombie_reaper_do_scan).
--     Server/Loop is the loop around epoll_wait(). Server/Valid is the invariant of the server,
--     with its proofs below; Server/Reach has the runs.
--     Server/Threads: thread_wait() and the start and end of server_udp_epoll_run_event_loop(), as steps
--     of any number of threads; Threads/Barrier is about their common start. Server/Shutdown: from
--     the waits of destroy_epoll() to destroy_state() of server/linux/udp.c; Shutdown/Wait, Sessions,
--     Farewell and Release prove how long the server waits, what becomes of the sessions, what the
--     clients are told and what is given back. Server/Life: the event loop with that end.
--   Config: server/entry.c and client/entry.c, from the command line and the ini file to the
--     configuration that the VPN proper gets. Config/SrvCfg and CliCfg are the structures with
--     their defaults, Config/Server and Client the options, the sections of the file, run_server
--     and run_client; Config/Loops, Values, Files, SockTypes and Fields are what both share. Below
--     Server and Client, Keys says which options and lines are taken, Origin where a value comes
--     from, Starts and Verdict when the program starts, Texts is about the sizes of the fields.
--   User: auth.c (teavpn2_auth, validate_username, userfile_parser), with fopen(), the ini parser and
--     strtoul() as parameters; User/Parser and User/Laws prove what a user file grants.
--   Alloc, Alloc/Aligned: allocator.c (al64_malloc, al64_calloc, al64_realloc, al64_free) on a memory
--     of bytes, with the C library's functions as parameters.
--   Client: struct cli_udp_state, and client/linux: Client/Socket (sendto(), recvfrom() and poll() in
--     udp.c and udp_epoll.c), Setup (do_handshake, do_auth and what they call in udp.c), Event (the
--     handlers of udp_epoll.c and the loop around epoll_wait()), Timer (_run_timer_thread). Socket/Answers,
--     Setup/Handshake, Setup/Answer, Setup/Auth, Event/Effects and Timer/Limits prove what they do.
--   Protocol: client and server together. Carry is a packet of one side in the buffer of the other;
--     Data, Upstream and Downstream are the two directions of the tunnel, Greeting the handshakes, Login
--     the authentication, Account the way from the client's configuration to the server.
--   Iface: net/linux/iface.c, teavpn_iface_up() and teavpn_iface_down(): Iface/Quote (escapeshellarg),
--     Address (prefix length, network and broadcast address), Toggle (the commands), Words (their texts).
--   Epoll, Epoll/Once: init_epoll_thread_array() of server/linux/udp_epoll.c, which thread waits for which
--     descriptor; the client's code for it is the same.
--   TunFds, with TunFds/Held, Opens and Leaks: the loop of init_iface() in server/linux/udp.c that opens a
--     TUN descriptor for each thread, and its clean-up; the client's code for it is the same.
--   Common: Boolean tests, lists, the results of C functions, tables. Tests: concrete inputs.
--
-- How code is read. A C function becomes a function from the state to its result and the new state. A
-- result below zero is `fail` with its errno (`Ret`). A pointer to a session is its index. A buffer is
-- a list of bytes. Numbers of 8, 16 and 32 bits wrap where the code lets them (`% 256`, `% 2 ^ 16`).
-- What the kernel answers to sendto(), write() and poll() is a list of answers in the state, one per
-- call; it is the fuel of the retry loops. An empty list stands for a descriptor that is down: the call
-- fails with ENETDOWN, as it does for a return of 0. Any finite run of the code is covered by a list
-- long enough; a loop that retries for ever has none. What one event takes from the clock, malloc(),
-- teavpn2_auth(), inet_addr() and snprintf() is the record `Env`. A panic is `none`.
--
-- What is left out. Threads: an event or a scan runs to its end before the next, which the session
-- locks make true for the pool but not for the route table and for all fields of a session; each
-- has the packet buffer to itself. A build without NDEBUG looks a new session up again (BUG_ON in
-- handle_new_client). On the client, a signal can only come during a poll() of the set-up, where it
-- sets `stop`; a packet is handled to its end before the next. The handshake loop has fuel for its
-- five attempts, which more fuel does not change. Of the interface's set-up the sizes of the arrays
-- for quoted texts are left out, and what the C library and the `ip` command do is the record
-- `System` and the answers in `Shell`. Of the configuration, getopt_long(), fopen(), the ini parser
-- and the functions of `Libc` are parameters: the parser hands over the lines of a file one by one,
-- also after one that is refused. The waits at the end of the server load a flag at most 1003
-- times; what the loads give is a parameter. The creation of threads, socket set-up, log output and
-- the graphical interface are not modelled: they are input and output, or calls of libraries.
-- Vendored libraries are not modelled. The server takes teavpn2_auth() as a parameter of `Env`,
-- since it works on the bytes of a `struct if_info`, of which User has the fields.
pub mod Common
pub mod Stack
pub mod Route
pub mod Session
pub mod Packet
pub mod Server
pub mod Tests
pub mod User
pub mod Alloc
pub mod Client
pub mod Protocol
pub mod Iface
pub mod Epoll
pub mod TunFds
pub mod Config
