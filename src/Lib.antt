-- ===== src/Lib.antt =====
-- The chat program: a server and a client, with the wire protocol, the containers, the managers and the
-- transport that they are made of.
--
-- The program is a chat server and a client. A client sends requests over TCP as messages with a
-- type, a length and a payload; the server registers users, logs them in and out, and hands out the
-- multicast address of a group to those who create or join it. The server's transport
-- (server/server_net.c) collects the bytes of each client in a buffer and calls the request handler
-- (server/server_mng.c) once for each whole message. The handlers decode the payload
-- (shared/protocol.c), call the user manager (server/user_mng.c) and the group manager
-- (server/group_mng.c), and send one reply. Both managers keep their entities in a hash map
-- (shared/adt/HashMap.c) under C strings (server/hash_utils.c); the group manager takes addresses
-- from a pool (server/free_mc_queue.c) that is a bounded queue (shared/adt/genqueue.c). In the client
-- the screens of the terminal (client/ui.c) call the requests (client/client_mng.c), each of which
-- sends one message and receives one (client/client_net.c); the groups that the client has joined
-- stand in a doubly linked list (shared/adt/gen_dlist.c) with the processes of their two chat windows
-- (client/client_groups_mng.c). Of the two windows of a group one sends what is typed to its multicast
-- address (client/chat_sender.c), the other prints what arrives there (client/chat_receiver.c).
--
-- Which file models what:
--   Prelude, Memory, Malloc   shared helpers: lists and Boolean tests over the native numbers; a C
--                             buffer with `buf[i]` and memcpy, where an access outside the buffer is
--                             the outcome `fault`; the outcomes of the coming calls of malloc
--   Protocol                  shared/protocol.c and shared/protocol.h, `chat_encode_*`, `chat_decode_*`
--   HashMap                   shared/adt/HashMap.c: `HashMap_Create`, `_Insert`, `_Remove`, `_Find`,
--                             `_Size`; HashMap/Stored has the lookup against the
--                             stored pairs, HashMap/Walk `_ForEach` and `_Destroy`, HashMap/Prime the
--                             table size, HashMap/Chains the search of a list
--   Queue                     shared/adt/genqueue.c, `QueueCreate` to `QueueForEach`
--   DList                     shared/adt/gen_dlist.c, `ListCreate` to `ListItrForEach`, on a heap of
--                             nodes; DList/Circle has the chains of nodes in both directions
--   HashUtils                 server/hash_utils.c
--   FreeMcQueue               server/free_mc_queue.c
--   GroupMng                  server/group_mng.c and server/group.h
--   UserMng                   server/user_mng.c and server/user.h
--   ServerMng                 server/server_mng.c, with the state of the three managers in one record;
--                             ServerMng/Shutdown has the `_Destroy` functions of the managers and the
--                             pool, and `main` of server/server_main.c
--   Net                       server/server_net.c: `HandleNewConnection`, `HandleClientData`,
--                             `ProcessBuffer`; Net/Loop has `ServerNet_Create`, `_Run`, `_SendMessage`
--                             and `_Destroy`
--   ClientNet                 client/client_net.c: `client_net_send_all`, `client_net_recv_msg`
--   ClientGroupsMng           client/client_groups_mng.c, on the linked list of DList
--   ClientMng                 client/client_mng.c; ClientMng/Agree has the client and the server together
--   ChatWindow                client/chat_sender.c and client/chat_receiver.c; ChatWindow/Chat has what is
--                             typed into the one and printed by the other
--   Ui                        client/ui.c, over an interface of the client's operations
--   Session                   client/client_main.c: the screens of Ui over the requests of ClientMng
-- The child modules of each hold its lemmas, and those named for tests its small runs.
--
-- How the code is read: a C string is the list of its bytes before the NUL, `char` arrays in
-- messages are byte lists. An operation on an object takes its record and returns the new one. A
-- pointer to a user or a group is an index into a store. A pointer that the code tests for NULL is
-- an option where a caller can pass NULL. `size_t` keeps its wrap-around where a computation can
-- reach it: the hash, the square in the test for primes, the indices and the buffer size of the
-- queue. A sequence of outcomes stands for the allocator, so that every combination of failures is
-- covered. In the linked list an address is a number and a field of the nodes a map over addresses,
-- malloc answers any address without a node, or NULL, and an access to an address without a node has no
-- outcome. A stream that is received is a sequence of pieces with errors between them, so that every way
-- to cut it is covered; the turns of the server's main loop are a sequence of what select, accept and
-- recv answer.
--
-- Fuel: the search for a prime runs on fuel, one unit for each candidate, and the test of a candidate
-- on one unit more than the candidate, while its divisors grow by 6; the fuel that is enough is a
-- hypothesis about the next prime. The framing loop runs on fuel above the number of unparsed bytes:
-- each round takes at least two off, and the buffer has 771.
-- The loops over a linked list run on fuel above its number of nodes, since they take one node in each
-- round and one round more to see the end; the screens of the terminal run on fuel above the number of
-- bytes that are typed, since each round reads a line, and so does the loop of a sender's window.
-- In a session a loop over the windows has fuel for one more than the groups that have been asked for.
--
-- Undefined behaviour and signals: an access outside a buffer is the outcome `fault`, which the server's
-- state records in `faulted`; FD_SET on a descriptor of FD_SETSIZE or more is recorded in `outside`, and
-- changes no mark. Neither side blocks, handles or ignores SIGPIPE: it ends the process, so the run of
-- the client, or of the server's main loop, has no result then.
--
-- Not modelled: what is printed outside the chat windows; connecting and closing a TCP socket, and the
-- installation of the signal handler, since they are calls of the operating system; the text of the shell
-- commands that open the chat windows. The hash map's chains and the groups of a user see the linked list
-- as a sequence.
pub mod Prelude
pub mod Memory
pub mod Malloc
pub mod Protocol
pub mod HashMap
pub mod Queue
pub mod Net
pub mod HashUtils
pub mod DList
pub mod ChatWindow
pub mod ClientNet
pub mod ClientGroupsMng
pub mod ClientMng
pub mod Ui
pub mod FreeMcQueue
pub mod GroupMng
pub mod UserMng
pub mod ServerMng
pub mod Session
