-- ===== src/Lib.antt =====
-- Ape-Server, an instant-messaging server: a model of its storage logic and of the sessions that
-- its gateway keeps.
--
-- Clients hold a WebSocket session at a gateway (src/gateway); the services (src/services) answer
-- gRPC calls and reach the databases through the handlers of src/storage; messages pass through a
-- queue (src/messagequeue) to the push service, which hands them to the gateway of the receiver.
--
-- Text: the decimal and hexadecimal texts that group commands use (`groupId`, `hex`, `unhex` of
--   src/storage/mysqlhandler.cpp), and how src/services/auth_service/server.cpp reads numbers.
-- Group: group chats, `namespace group_storage` of src/storage/mysqlhandler.cpp. Data has the
--   messages of proto/groupchat.proto and the rows of the tables that InitializeGroups creates;
--   Store the statements and row readers that the operations share; Manage with its Change, and
--   Talk, one function for each branch of `perform`; Perform the checks in front of them; Execute
--   `executeOnPool`, with its transaction and its table of requests; Delivery what members are
--   notified of, from `buildDelivery` to `EnsureGroupNumbers`. The proofs: Delivered on what a
--   notice carries, Pending on which groups wait for one, Numbers on the groups' numbers, Sound and
--   Invariant on the consistency of the tables, Frame, Answered and Retry on repeated requests,
--   Reach and Access on permissions, Send and Window on messages.
-- Conversation: the single-chat conversations of src/storage/mysqlhandler.cpp, from
--   InitializeConversations to DeleteConversation. Data has the rows; Record what a message does,
--   Owner what an owner changes, Query the lists. Sound, Keeps, Changes and Reach are about the
--   unread counts, Redelivery, Lasting and Repeated about a message that comes twice, Totals about
--   the pages.
-- Outbox: the tasks of src/storage/mysqlhandler.cpp, from InitializeOutbox to
--   ConfirmMessageDispatch, that carry a single-chat message and its acknowledgement to MongoDB,
--   Redis and Kafka. Queue puts tasks in, Lease takes them out under a lease, Process is
--   ProcessOutboxTask, which records in Conversation too, Worker a turn of
--   src/services/msg_service/outbox_worker.cpp. The proofs: Released, Phases and Turns on what a
--   turn leaves leased, Exclusive on leases, Cancel on friendships that ended, Dedupe on messages
--   that are queued again, Backoff on the time between attempts.
-- Friend: `mutate` of src/storage/mysqlhandler.cpp. Data has its tables, with those that the outbox
--   shares, Mutate the operations, which remove chats through Conversation and Outbox, Symmetric
--   the proofs.
-- Gateway: src/gateway. Sessions is WSSessionManager of ws_session_manager.cpp. The others are
--   WSSession of ws_session.cpp: Session its state, write queue and end, Enter the first frame,
--   Answers and Serve the loop that reads, Offline the scan of the messages that an account has not
--   acknowledged, in batches, Deliver its callbacks. The proofs: Gauge and Refine on the manager,
--   Entered and Trusted on who gets a session, Asks and Owned on what a session passes on, Flow,
--   Listed and Steps on the queue and the end, Ascending, Scanned and Settled on the scan.
-- Register: the registration of users, `namespace mysql_registration` of
--   src/storage/mysqlhandler.cpp, and src/util/account_pool.cpp. Data has the tables, Once the
--   attempts of `once`, Refill `refill` and `create`. The proofs: Reach on the consistency of the
--   tables, Answers and Again on repeated and failed calls, Joined and Given on the user that a
--   registration leads to.
-- Queue: the consumer of src/messagequeue/kafkaconsumer.cpp. Consumer has its lanes and workers,
--   Reach and Bounded the proofs on order and on the size of the queues.
-- Push: the push service of src/services/push_service and src/services/gateway_push_service.
--   Visible has the checks of a message in src/storage/mysqlhandler.cpp, Service the calls, over
--   Outbox and Gateway. The proofs: Handled and Acknowledged on messages that are handed over
--   again, Deliver on what a push does, Agree on the two checks.
-- Services: Redis is what the services expect of Redis, Timed a store that has it. Backbon is
--   src/services/backbon_service, with its proofs in RoundTrip and Online. Auth is
--   src/services/auth_service, over the tables of Register, with its proofs in Tokens, History,
--   Valid and Joins; the session of Gateway calls it.
-- Util: src/util/snowflake.cpp, in Snowflake, with its proofs in Increasing and Issued. The rounds
--   of `next_id` bound the readings of the clock in one wait; Issued says how many are enough.
--
-- A MySQL table is the list of its rows in the order of insertion, and each statement a function on
-- it. A statement that a key refuses fails as `db_error`; a transaction that fails is rolled back.
-- The calls are run one after the other: the locks of the source, on the row of the group and on
-- the row of the request, make them so. The operations of the outbox read the clock once. Numbers
-- are natural numbers: the 64-bit counters of the source are not taken to overflow. Texts are lists
-- of bytes; where a column is not declared binary, request and message identifiers and the tokens
-- of leases are compared without case, as ASCII texts.
--
-- A session's coroutines run in turn on one executor. A function of Gateway.Session or
-- Gateway.Deliver is what runs between two waits but those for Redis, and Steps lets them and the
-- other sessions follow each other in any order; the loop of Serve runs each request whole, as its
-- coroutine does, with no other coroutine in between. The fuel of a scan bounds its rounds; Scanned
-- says how many are enough. Times of Redis are in whole seconds.
--
-- Parameters: the snowflake, UUID and clock of a call (Env), protobuf's reading and writing (Codec,
-- Json), whether the other stores do what they are asked (Clients, Services, Network, Answers,
-- Call, Look), whether a transaction begins, and which statement of it fails and how (Weather),
-- SHA-256, the shuffle of the account pool, and, for tokens, Redis, with what its documentation
-- says of SETEX, GET and TTL (Lawful).
-- Not modelled: of src/storage/mysqlhandler.cpp the lists of friends and most reads of single
-- users; src/services/msg_service but for the worker of the outbox, the conversation, group and
-- friend services around their operations, and the clients of the services, but for that of
-- authentication; the server that accepts connections, the handshakes, timeouts and the texts of
-- errors, and a write past the queue that fails; the producer of the message queue, and the
-- handlers of MongoDB and Redis, which are calls of their drivers; leases and times to live of
-- etcd, and of the keys that Backbon reads; input and output, logging, configuration and generated
-- protobuf code.
pub mod Prelude
pub mod Text
pub mod Conversation
pub mod Friend
pub mod Gateway
pub mod Group
pub mod Outbox
pub mod Push
pub mod Queue
pub mod Register
pub mod Services
pub mod Util
