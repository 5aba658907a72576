-- ===== src/Lib.antt =====
-- A model of ginject, a dependency-injection web framework for Go, with proofs about the parts that
-- hold its logic.
--
-- Go strings are lists of bytes (Text). A Go map is a list of entries with the order of one
-- iteration (GoMap): Go leaves that order open, and what is stated of an iteration holds for every
-- such list; the runs of the cache reorder the entries between the calls. Numbers are natural
-- numbers, or integers with the wrap-around of `int64` where the code computes with times.
--
-- Locks: every method that holds a lock from its first read to its last write is one step; the time
-- that a call works with is read before it takes the lock. Random ids, clocks and the hash of a key
-- are arguments.
--
-- The parts and their files:
--   * pattern/pattern.go is Pattern: `new_pattern` and `match` are `NewPattern` and `Match`.
--   * memorybroker/ is Broker. The indexes of `MemoryBroker` are the fields of a record of the same
--     name; `subscribe`, `unsubscribe`, `publish` and `close` are the methods. It asks Pattern for
--     the kind of a topic and for the complex matches. A handler is a function on the state of the
--     program that may panic.
--   * memorycache/ is MemoryCache: 256 shards, each with its write counter. `get`, `set`, `set_nx`,
--     `delete`, `ttl`, `keys` and `sweep_shard` are the methods at a given time.
--   * internal/str/str.go is Str: `segment` and `enclose`.
--   * internal/ds/trie.go and internal/ds/fn.go are Trie and Trie/Search. A node is `node` of its
--     `IsEnd`, `Raw`, `Children` and `globChildren`; the pointer that moves down a path is recursion
--     on the segments of the path, which the loops over `Segment` give (`segments_of`).
--   * routing/router.go and routing/fn.go are Router. `push` is the method of that name with its
--     four callers; `add_route`, `for_methods`, `use_middlewares` and `match_route` are `Add`, `For`,
--     `Use` and `Match` (Router/Matching). The router keeps its items by pattern, and in the trie
--     the pattern of each parsed route. The `-1` of `HandlerIndex` is `none`.
--   * event/event.go is Event: `on`, `once`, `off`, `emit` and the rest are the methods; `emit` gives
--     the listeners in the order of the calls.
--   * modules/storage/ is Storage: `encode_record` and `decode_record` (Storage/Codec) with the
--     checksum as a parameter, `scan_seg_file` (Storage/Scan), the loops of `rebuildIndex` and
--     `compact` (Storage/Replay), and the segments of an engine with `write_record` and
--     `read_record_at` (Storage/Segments). The index of a table is a record with the fields of
--     `tableIndex` (Storage/Index, Storage/Index/Search); `create`, `find_by_id`, `update_by_id`,
--     `delete_by_id`, `search` and `exec_query` are the methods of `Model` on an engine with its
--     index (Storage/Model, Storage/Query), and `rebuild_index` is `rebuildIndex`
--     (Storage/Opening), with JSON, `fmt.Sprint` and the Unicode tests as parameters. A `Write` is
--     what one call of `Create`, `UpdateByID`, `DeleteByID` or `commit` leaves in the log of a
--     table.
--
-- Fuel: `segment_loop` runs on the length of the path. Each round leaves a shorter rest, so that is
-- enough (Str/Segmenting). `parse_loop` runs on the length of the route, of which each round takes a
-- byte or more (Router/Params/Enough). `scan_loop` runs on the length of the segment, of which each
-- record takes 8 bytes or more (Storage/Scan/Whole). Every other loop is structural recursion.
--
-- Not modelled: the goroutines of the broker and the cache; failing file system calls, the
-- directory, the hooks and the watchers of the store, the files that its compaction writes, and
-- `Schema` on a table with documents; `Len` and `ToJSON` of the trie; the Unicode functions of
-- internal/str; and so far `Group`, `AddInjectableHandler` and `PatternToMethodRouteVersion` of the
-- router, the web socket events, the aggregation, the versions, the other modules under modules/ and
-- the core that ties them together.
pub mod Broker
pub mod Event
pub mod GoMap
pub mod MemoryCache
pub mod Pattern
pub mod Prelude
pub mod Router
pub mod Storage
pub mod Str
pub mod Text
pub mod Trie
