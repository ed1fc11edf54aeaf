-- ===== src/Lib.antt =====
-- OniWorks, a web framework for Go, in parts: the in-memory cluster store (framework/memory), roles and policies
-- (framework/roles), the rate limiter (framework/middleware/ratelimit.go), the HTTP router
-- (framework/routing), the event buffer and the channel router of the realtime hub (framework/realtime), and
-- sessions (framework/session).
--
-- The store of one node keeps entries by key, with a time to live and the vector clock of the write.
-- It tells its own subscribers of each write (PubSub) and sends the write to the other nodes (gossip.go
-- or redis.go), which apply it if their entry is not after it (After). The
-- other parts stand on their own.
--
-- Which file is about what:
-- - Prelude: Go's strings (lists of bytes), maps (Prelude/Dict: an association list with distinct
--   keys, whose order stands for the order of Go's iteration), strings.Split, strings.Index, and so on
-- - Memory/Clock: framework/memory/clock.go. Tick, Merge, After, Equal
-- - Memory/Glob: globMatch of framework/memory/store.go
-- - Memory/Topic: topicMatches of framework/memory/pubsub.go
-- - Memory/PubSub: the rest of framework/memory/pubsub.go. A subscriber is an object with an address;
--   a panic of a channel is `none`
-- - Memory/Store: framework/memory/store.go. Each method takes the time, the arguments and the store,
--   and returns the result and the store; Store/Remote has what arrives from other nodes, with
--   applyMsg of gossip.go and redis.go, and Store/Snapshot has saveSnapshot and loadSnapshot
-- - Memory/Gossip: the frames, the handshake and the read loop of framework/memory/gossip.go
-- - Roles: framework/roles/rbac.go
-- - RateLimit: framework/middleware/ratelimit.go
-- - Middleware: framework/middleware/cors.go
-- - Routing: framework/routing (Pattern: trie.go; router.go and group.go; Url: Router.URL)
-- - Realtime: framework/realtime/resume.go and router.go
-- - Database: framework/database (Grammar: grammar.go; Ident: how builder.go checks and quotes columns;
--   Builder: the collecting methods, with Sql for the assembly and Terminal for what is sent)
-- - Migrations: framework/migrations/migrator.go, with Schema.execute of schema.go; Migrations/Table has
--   table.go, and Migrations/Schema the statements of schema.go
-- - Queue: framework/queue/queue.go and job.go, and Queue/Memory: framework/queue/drivers/memory.go, with
--   the workers as a step relation (Queue/Memory/Conserve)
-- - Session: framework/session/session.go over framework/session/drivers/memory.go
--
-- Bounds and fuel: uint64, int64 and int are numbers below 2 ^ 64 with the wrap-around written out. Times
-- and lengths have no bound. read_loop runs on fuel, one unit for each frame; its theorem
-- asks for more fuel than there are messages. Queue.drain runs on fuel, one unit for each Pop;
-- its theorem asks for more fuel than there are payloads that are due.
--
-- Parameters: encoding/gob, encoding/json, reflect.DeepEqual and the conversion of float64 to int64 are
-- functions that the definitions take. The function that resolves a user's roles is the
-- application's, and its result is an argument; so are the random ids of sessions, and the two
-- handlers of the router that only write a response, its error handler and what makes a context. What
-- the jobs of a queue do, and what others do to it meanwhile, is an argument of each step, and the
-- database of the migrations is a record of functions.
--
-- A method that holds a mutex is one step. Tick is taken as one step too, though it adds to its
-- counter before it takes the lock. What is sent to a peer is a sequence, in the order in which the
-- sends take the lock of the connection. Not modelled: goroutines that only start or stop other
-- code, sockets, files, logging, and the parts of the framework that no file above names.
pub mod Database
pub mod Memory
pub mod Middleware
pub mod Migrations
pub mod Prelude
pub mod Queue
pub mod RateLimit
pub mod Realtime
pub mod Roles
pub mod Routing
pub mod Session
