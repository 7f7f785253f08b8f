-- ===== src/Lib.antt =====
-- The server of the ZFS NAS dashboard: what it reads from the system, what it keeps, and how it
-- pushes it to browsers.
--
-- Files, and the code that they model:
--   Prelude, Prelude/*    shared names, list lemmas, signed integers with the wrap-around of int64,
--                         results
--   Go, Go/*              what the program uses of Go's library: strings, strconv, maps,
--                         time, net/http
--   Broker, Broker/*      internal/broker/broker.go. The record `Broker` has the fields of the
--                         struct; a channel is an index into `chans`. `register`, `unregister` and
--                         `broadcast` are the methods. Broker/Threads has the same code cut into the
--                         steps between which goroutines interleave, as a function `step` over
--                         events and `run` over a schedule; Threads/Atomic says how the two
--                         relate. Broker/Calls has whole calls with their replies, and Broker/Hub
--                         what they promise: a mailbox for each client.
--   Config, Config/*      internal/config/config.go: `load` is Load, `append_int` appendInt,
--                         `env_string` envString.
--   Collector/Runner      internal/collector/runner.go
--   Collector/Smart, *    internal/collector/smart.go: discovery of the pool's disks (Devices), the
--                         reading of one disk and its grading.
--   Collector/Zfs, *      internal/collector/zfs.go: the parser of `zpool status` (ZpoolStatus), of
--                         `zfs list` (Lists) and of arcstats (Arc), and the collection of all.
--   Collector/Files, *    internal/collector/files.go: the tally of files by user (Usage), the
--                         tree of directories (DirTree), and Files, which is `files`.
--                         DirTree/Printed has a report of `du` as the text that it prints.
--   Store, Store/*        internal/store/store.go: `open_store` is Open, `open_db` open; Store/Rows has
--                         Insert, GetSince and Prune.
--   Poller, Poller/*      internal/poller/poller.go: one round of collectSmart and collectFiles, on
--                         the record `Poller` with the data behind its store and its broker;
--                         Poller/Loops has each of the three goroutines, and Poller/Start all
--                         of them as they interleave with the clients' calls of the broker.
--   Handler, Handler/*    internal/handler/handler.go: each handler under its name in snake case;
--                         Handler/Events has handleEvents as a session, a list of what the handler
--                         meets while it waits, and Handler/Router NewRouter.
--   Main, Main/*          cmd/zfs-nas-dashboard/main.go: the start, and how main ends; an argument
--                         stands for the server while it runs. Main/Shutdown has the signal, Shutdown
--                         and the deferred calls as they interleave with the poller.
--
-- Conventions. A Go string is the list of its code points, so texts are valid UTF-8. An int or int64
-- is an integer, cut to 64 bits where the code computes with it. A value beside an error is a pair,
-- as Go returns it; a value or an error is a `Result`. Loops are recursions on the list that they
-- walk. External commands, the decoding of JSON, the file system, the SQLite driver, floats and the order in
-- which Go ranges over a map are arguments of the definitions that use them.
--
-- Loops with a bound: `parentPath` recurs on the path's length plus one, which is more than the cuts
-- it can make. The tree of directories is read off the heap of its nodes with the sum of the path
-- lengths plus one; a child's path is longer than its parent's, so that is enough.
--
-- Not modelled: the HTTP server of cmd/zfs-nas-dashboard, which is a library's, and with it the
-- requests that are in flight when the program ends; what is logged; the browser side.
pub mod Prelude
pub mod Go
pub mod Broker
pub mod Config
pub mod Collector
pub mod Store
pub mod Poller
pub mod Handler
pub mod Main
