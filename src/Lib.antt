-- ===== src/Lib.antt =====
-- A verification library of the Circle wallet service: an HTTP service that queues transactions, signs
-- them through Circle, posts them to an Aptos node and reports how they end.
--
-- The parts. A request becomes a row of the store (internal/store). One worker per sender
-- (internal/submitter) claims the oldest queued row, which gives it the sender's next sequence number,
-- has it signed, writes the hash of the signed transaction to the row and only then posts it. The
-- poller (internal/poller) looks the hash up on the chain and gives the row its end. Each failure path
-- gives rows back to the queue and corrects the sender's counter. The archive (internal/archive)
-- deletes old rows. The end of a row is told to its webhook through an outbox (internal/webhook). They
-- meet in the store: the interfaces Store and Queue are its methods, in memory or over MySQL.
--
-- The files.
--   Prelude, GoMap, Text: shared names, Go's maps as association lists, and the string functions.
--   Store: internal/store/store.go.
--   Memory, with Memory/*: internal/store/memory.go. Each method is a function of the store.
--   MemoryQueue, with MemoryQueue/*: internal/store/memory_queue.go.
--   Aptos/Errors: the classification of errors in internal/aptos/client.go.
--   Aptos/Client, with ViewArgs: its requests of the node; Submitter/Wired fills the calls of the
--     submitter with it, and Submitter/Unavailable is about a node out of reach.
--   Aptos/Abi: internal/aptos/abi.go. Aptos/Args, with Types and Typed:
--     internal/aptos/args.go. Aptos/Entry: the payload of an entry function, in both files.
--   Lru, with Lru/*: the bounded cache that internal/aptos/abi.go and internal/circle/pubkey_cache.go
--     both write out. Circle/PubkeyCache: internal/circle/pubkey_cache.go.
--   Circle/Client, Circle/Signer, with Signs: the other two files of internal/circle.
--   Submitter, with Submitter/*: internal/submitter/submitter.go. Remote has the calls that leave
--     the process, Prepare is prepareRecord, Submit is submitSigned, Worker has the parts of a worker,
--     Pipeline its two goroutines as they interleave, and Dispatch is Run and recoverLoop.
--   Poller, with Poller/*: internal/poller/poller.go.
--   Handler/WebhookUrl: internal/handler/webhookurl.go.
--   Handler/Backend: what the handlers call of a store. Handler/Execute, with Replay and Stored:
--     internal/handler/execute.go. Handler/Query: internal/handler/query.go.
--   Handler/Lookups, Handler/RateLimit: the other files of internal/handler.
--   Archive, with Sweep and Keeps: internal/archive/archiver.go.
--   Config, with Config/*: internal/config/config.go. Env has the overrides from the environment, Load
--     has Load and validate, Getters the fallbacks, and Retention makes the archiver of the settings.
--     Strconv has the parsers of Go's strconv that it calls.
--   Server, with Server/*: the HTTP handler of cmd/server/main.go. Routes has the patterns, Tables
--     is the store that it hands to the handlers, Guard is about the API key, and Trips about requests
--     that follow one another.
--   Mysql, with Mysql/*: internal/store/mysql. Rows and Crud are mysql.go, Queue is queue.go, Outbox is
--     webhook.go, Tables has the statements they share, Contract says what a claim promises,
--     whichever store serves it, Queue/Agreement compares runs of both queues, and Runs is about any
--     run of calls.
--   Webhook, with Webhook/*: internal/webhook. Retries is about deliver and handleRetry, Batch has
--     processBatch, Notify the notifier of the outbox, Dial the dialer and the redirect check.
--   Tests: the theorems on concrete stores.
--
-- How the state is modelled. A MemoryStore is the struct with its maps; a method holds the mutex to
-- its end, so it is one step. The order in which Go visits a map is the order of the association
-- list, and no theorem fixes it. A time is a number of nanoseconds since Go's zero time, read once in
-- each handler; sequence counters are numbers below 2^64 with the wrap-around written out. The
-- submitter and the poller work on a World: the store, the time, a list that says of each database
-- call to come whether it runs, fails or is cancelled, and what left the process (posts to the node,
-- records handed to the notifier). A call that fails has no effect on the store. The loop over pages
-- in the poller takes fuel: one more than the number of rows, which is enough. The loops of the
-- archiver take one more than the number of rows, and of keys.
--
-- A method of the MySQL store is a function of the tables: the statements of one database transaction
-- either all take effect or none does, and the row locks make concurrent calls take turns. The record
-- Engine has what the statements rely on of the server: how it subtracts unsigned numbers, rounds a
-- TIMESTAMP, lays out JSON and compares text. The order of the rows in a table is any order.
--
-- The settings are read from an environment, a function from names, and from files and a YAML decoder
-- that are parameters. The handlers work on a Backend, the part of the interface Store that they call;
-- the server gives them the MySQL one, where each call of the database runs, fails or is cancelled. The
-- submitter, the poller and the archiver stand over the in-memory store, which serves the same
-- interface; cmd/server/main.go hands them the MySQL one. A state of the server is the tables with the module cache and the token
-- bucket of the rate limit; one request is served to its end before the next.
--
-- A worker of the submitter is a step relation: the producer and the consumer take their turns in any
-- order, the channel is a list, the context may be cancelled at any step, and the rest of the service,
-- other workers included, may change the store between two steps. The dispatcher is one too. Each call
-- of submitSigned, and each turn of the producer, is one step.
--
-- Circle, the node's SDK, HTTP, JSON and the cryptography are records of parameters. A signer is the state
-- of one client: calls of it take turns where they fetch Circle's key.
--
-- Not modelled: opening the database, starting and stopping the goroutines of the server; the
-- signature of webhooks; logging, metrics, tickers, the limiter of the poller and sleeps; the deliveries of a batch and the rows of a page of the poller run in sequence,
-- where the code runs them at once; failures of the connection in the middle of a MySQL method, and deadlocks; the command
-- line, the migrations and the examples, which are clients of the service or of a library.
pub mod Prelude
pub mod GoMap
pub mod Text
pub mod Store
pub mod Strconv
pub mod Memory
pub mod MemoryQueue
pub mod Aptos
pub mod Submitter
pub mod Poller
pub mod Handler
pub mod Archive
pub mod Lru
pub mod Circle
pub mod Config
pub mod Webhook
pub mod Mysql
pub mod Server
pub mod Tests
