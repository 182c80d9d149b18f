-- ===== src/Lib.antt =====
-- A verification library for the SOCKS5 proxy and its monitoring protocol.
--
-- The program is a single-threaded server over a selector. A SOCKS5 connection greets, authenticates
-- and requests a destination; each message is read from a byte buffer by an automaton of its own. The
-- POP3 sniffer reads the credentials off the traffic. A monitoring connection, guarded by the
-- administrator's password, changes the table of users, reads the metrics and switches the sniffer.
--
-- The files:
--   Prelude           shared names, Boolean tests, lists and C strings, faults, integers
--   Buffer            src/buffer.c. Inv: the invariant; Refine: the queue of bytes; Loop and For: the two
--                     loops over a buffer that the parsers of the program share
--   Users             src/users/user_mgmt.c. Table and Entries: the table as a finite map; Inv: the
--                     operations; Memory: the blocks behind the strings
--   Parsers.Conn      src/parsers/conn_parser.c; Select: the method that is chosen
--   Parsers.Auth      src/parsers/auth_parser.c; Credentials: what is read; Aims, Steps and
--                     Safety: where it is stored
--   Parsers.Req       src/parsers/req_parser.c, with the constants in ResState, ReqCmd and ReqAtyp;
--                     Address and Message: what is read
--   Metrics           src/metrics.c; Account: the counters over a run of events
--   Sniffer           src/sniffer/pop3_sniffer.c; Capture and Login: what is read; Noise: everything else
--   Control           src/controlProtocol: the two parsers, Strtok, the commands (cpCommands.c), in Conn
--                     the connection with the handlers up to the commands, and in Protocol the
--                     commands' handler and the state machine (controlProtocol.c); ConnList: the list
--                     of connections; Accept: how src/server.c accepts one, with Refused: one that cannot be
--                     registered, and Turn: the handler of the listening socket in the event loop
--   Stm               src/stm.c: the engine of the state machines
--   Socks             src/socks5/socks5.c. Conn: the state of a connection, and what it shares; Hello, Auth,
--                     Response, Request and Copy: the handlers; Machine: the table of states and
--                     src/conn_handler.c. Bytes: the queues of the buffers; Listening, Handshake, Login,
--                     Connecting and Attempts: the messages up to the connection; Copy.Sides,
--                     Relaying, Steps and Ends: the invariant of the copy phase; Fifo, Reads and Runs: the two queues of
--                     bytes; Wakeup and Watch: what the selector waits for; Ending: the end of the streams
--   Server            src/server.c: accepting and closing; Close: which descriptors are closed
--   Selector          src/selector.c: the table of descriptors. Capacity: its growth; Highest: the scan for
--                     the highest descriptor; Inv, Register and Full: the operations; Dispatch: the
--                     event loop; Turn: what a turn of it does
--   Netutils          src/netutils.c: the blocking loops; Sent: what they send
--   Args              src/args.c; Accepted: what is accepted
--   Client            src/client/commands.c; Listing: its answers with data; Dialog and
--                     Connect: src/client/client.c.
--                     Strings, Messages, Lines and Responses: the strings of both; Logins, RoundTrip,
--                     Changes and Removal: from a typed line to the server's table and back; Tokens,
--                     Rows, Printed and Listed: the list of the users;
--                     Session, Terminal and Ending: the password and the loop of commands
--   Tests             the theorems at concrete inputs
--
-- A function that changes a struct takes it and returns it. Names are those of the source with
-- underscores. A byte is a number, which the statements bound where it matters; a C array is a list of
-- its length; a pointer into an array is the array and an offset. `none` is a fault: a failed
-- assertion, a store out of its array or through a null pointer, a use of freed memory. A wrap-around
-- of `uint8_t` is written out where it can happen. The loops are bound by the number of bytes that the
-- buffer holds, which is how often the source's loops can run, so no result is lost to the bound.
--
-- What the environment decides is an argument: the results of malloc in `add_user`, the bytes that
-- recv writes, what send returns, the heap bytes behind an answer. The monitoring commands' own calls
-- of malloc are taken to succeed, a `long` of the metrics does not overflow, and log output is left out.
-- The number of descriptors that the platform can handle is FD_SETSIZE, 1024.
-- A handler of the SOCKS5 connection takes the connection and what it shares with others (the server's
-- globals, the selector, what was closed and shut down) and returns the next state with both. The
-- results of recv, send, socket, connect, getsockopt and the allocations are arguments, and whether
-- the error of a call is EAGAIN or EWOULDBLOCK. `errno` itself is not modelled.
-- The handlers are a parameter of the event loop, which Control.Accept.Turn fills with the one of the
-- listening monitoring socket; a job that has finished is a use of freed memory there. `getopt` and
-- the memory for the users that it names are parameters of the arguments, and `send` and what ends
-- the stream are parameters of the blocking loops, where fuel above the number of bytes is enough.
-- The client has what it reads from the terminal and from the socket as lists; its loop of commands runs on fuel, of which one more than the
-- terminal has bytes is enough.
--
-- Not modelled: the set-up in main and the loop of the server over the event loop, the threads that
-- resolve names (their result is an argument), the resolution of the server's address by the client,
-- and the printing of addresses and of the log.
pub mod Args
pub mod Buffer
pub mod Client
pub mod Control
pub mod Metrics
pub mod Netutils
pub mod Parsers
pub mod Prelude
pub mod Selector
pub mod Server
pub mod Sniffer
pub mod Socks
pub mod Stm
pub mod Tests
pub mod Users
