-- ===== src/Lib.antt =====
-- Fraise, a memory database queried in a language of its own: a verification library for the parts
-- of the server that are pure logic over text, lists and maps.
--
-- The program. A request is a line of the query language. `internal/query/lexer` cuts it into
-- tokens and `internal/query/parser` builds a command from them; `internal/query` turns the command
-- into a query, `internal/query/optimisation` rewrites it, and `pkg/engine` caches the plan in the
-- LRU cache of `internal/cache` and runs it on a graph. `internal/containers` holds the structures
-- that the others share.
--
-- The files.
--   Prelude      the names that every module shares, lists and tests on native numbers, maps as
--                functions, text as a list of runes, its fields and decimal numerals.
--   Lexer        internal/query/lexer: the tokens (Lexer/Token, token.go) and the scanner
--                (Lexer/Scan, lexer.go); the grammar it is held against (Lexer/Grammar), what is
--                left of the input (Lexer/Cursor), its loops (Lexer/Loops), one call (Lexer/Next),
--                a whole text (Lexer/Tokens) and the round trip (Lexer/RoundTrip).
--   Cache        internal/cache/lru_cache.go: the methods (Cache/Lru), the abstract cache
--                (Cache/Recency), the entries with their handles (Cache/Cells, Cache/Oldest) and
--                the refinement (Cache/Methods, Cache/Shrink).
--   Config       internal/config/validate.go: the check of the settings (Config) and what it accepts and
--                refuses (Config/Valid).
--   Containers   internal/containers: the priority heap of heap.go (Containers/Heap), the queue
--                of priority_queue.go on it (Containers/PriorityQueue), the bounded heap of topk.go
--                (Containers/TopK; one offer in TopK/Kept, its heap order in TopK/Order, TopK/Up and
--                TopK/Down, the ranking of the pairs in TopK/Ranks, an offer to the best
--                so far in TopK/Step, any offers in TopK/Best), with lists used as arrays (Containers/Array) and maps
--                from keys to slots (Containers/Slots) below them; the bounds of time.go
--                (Containers/Time) and the vectors of vector.go
--                (Containers/Vector). The B-tree of trees/btree.go (Containers/BTree, its writes in
--                Containers/BTree/Write) against an ascending list (BTree/Order): the list of a node's
--                values (BTree/Layout, BTree/Shape), the search of a node (BTree/Search), splits
--                (BTree/Split), merges and borrows (BTree/Join, BTree/Pair, BTree/Rebalance, BTree/Fill),
--                the descent (BTree/Descend, BTree/Lookup, BTree/Room, BTree/Insert, BTree/Extremes,
--                BTree/Removal, BTree/Replace, BTree/Delete) and the methods (BTree/Valid,
--                BTree/Deletion, BTree/Built).
--   Nlp          internal/index/nlp: where a term ends (tokenizer.go), the stop words
--                (stopwords/stopwords.go; the list of en.go in Nlp/English), and what cleaning
--                leaves of a text (Nlp/Cleaned).
--   Query        internal/query: the queries of recall.go, remember.go and query.go
--                (Query/Command), the text they hash (Query/Material) and their equality
--                (Query/Equality); `Parse` (Query/Parse), what it makes of a command (Query/Build,
--                with
--                its limits in Query/Limits) and of a text (Query/Answers);
--                internal/query/optimisation (Query/Dedupe).
--   Parser       internal/query/parser: the syntax tree of ast.go (Parser/Ast) and how it is
--                printed
--                (Parser/Print); the parser of parser.go, from its two-token window
--                (Parser/Machine)
--                and its messages (Parser/Message, Parser/Errors, Parser/Warnings) over the clauses
--                (Parser/Clauses) and the terms (Parser/Terms) to the commands (Parser/Commands)
--                and `Parse` (Parser/Entry); the tokens of a query in their order (Parser/Written),
--                what an accepted command satisfies (Parser/WellFormed), and the proof that every production keeps to the query and ends (Parser/Safety).
--   Scheduler    pkg/scheduler/scheduler.go: the queues, their workers and the steps of `Submit` and
--                `Stop` (Scheduler), what each step keeps of a queue (Scheduler/Pools) and of all
--                (Scheduler/Accounting), and that `Stop` ends (Scheduler/Shutdown,
--                Scheduler/Progress).
--   Graph        internal/graph/bfs.go: the breadth-first traversal (Graph/Bfs), the depths it records
--                (Graph/Bfs/Depths), its order and parents (Graph/Bfs/Forest), its loop over the
--                queue (Graph/Bfs/Walk) and what it returns (Graph/Bfs/Shortest).
--
-- The models. State is passed explicitly, and each method is one function with the source's name
-- in snake case. An index out of range and a dangling pointer are `none`. A loop is recursion on
-- fuel, and `none` without it; the fuel is the length of the input for the scanner, the number of
-- slots for the heap, the number of entries for the cache, more than the vertices for the
-- traversal, the height for the B-tree, and three rounds more than there are runes for each loop
-- of the parser, and the theorems show that it is enough, since they state what is returned. A
-- production of the parser is a function of the parser's state: it returns a value, or it ends the
-- parse with one error, or it is stuck without fuel. A message is kept as its template and the
-- values that are printed into it. Locks are not modelled: each method runs as a whole under its
-- lock, except in the scheduler, whose goroutines interleave at each use of a channel. The tables
-- of Go's `unicode` package are a parameter of the lexer, the instants of its `time` package and a
-- floating-point type are parameters of the time bounds and the vectors, the hasher is a parameter
-- of the queries, and the vectors that a client sends are a parameter of the parser. Text is a
-- list of runes in the lexer and the parser, and a list of bytes elsewhere.
--
-- Not modelled: the server, the MCP bridge, logging and the loading of the configuration and its
-- defaults, which are input and output; scoring and the vector index, which are floating point;
-- the store of the graph and the text index; and of the scheduler, what a stream does to its
-- graph.
pub mod Cache
pub mod Config
pub mod Containers
pub mod Graph
pub mod Lexer
pub mod Nlp
pub mod Parser
pub mod Prelude
pub mod Query
pub mod Scheduler
