-- ===== src/Lib.antt =====
-- fyer-webframe: a web framework and an object mapper in Go. This library models the parts of both
-- that decide where a request, an entry or a row goes.
--
-- Base        shared names, the Boolean tests, texts as lists of bytes, Go's maps as association
--             lists, and signed 64-bit integers.
-- Routing     web/router/node.go. Routing/Node has the types and NewNode, Routing/Insert the method
--             Insert, Routing/Find the method Find. A tree is a value, so a write through the
--             pointer `current` is a new tree; a panic of Insert is a result beside the tree as the
--             panic leaves it. The loops over the segments are recursion on the list of segments.
--             Package regexp is the parameter Engine, and the order in which `range` visits the
--             parameter children is the parameter `order`.
--             Routing/Radix is web/router/radix.go, a tree for each method, and Routing/RegexCache
--             web/router/regex_cache.go.
-- Middleware  web/middleware.go: classifyMiddlewareType, the four matchers, the specificity,
--             sortMiddlewares, and BuildChain in Middleware/Chain. sort.SliceStable is insertion
--             into a sorted list, the one result that a stable sort can have.
-- Cache       orm/memory.go: the MemoryCache. Each method is a function on the state; Cache/History
--             has any sequence of steps of its critical sections. Times are natural numbers,
--             encoding/json is the parameter Codec, and the order of `range` is the argument
--             `visited`, in histories any permutation of the keys.
-- Sharding    orm/internal/sharding. Sharding/Strategy has the hash, range and remainder strategies of
--             strategy.go, over Sharding/Decimal (fmt's %d and strconv.ParseInt) and
--             Sharding/Checksum (hash/crc32), and Sharding/Date the one by date, for which package
--             time is a parameter; Sharding/Router has router.go, Sharding/Manager and
--             Sharding/Dispatch manager.go. The manager routes through the router, and opens a shard
--             under the name that the strategy gave it. What time.Now answers is the router's field
--             `clock`, and what database/sql answers is the argument `world` of a call.
-- Conditions  orm/condition.go and orm/op.go: the text and the arguments of a predicate. The builder's
--             text is a list of pieces, so that a placeholder keeps its number.
-- Builders    the builders of orm/selector.go, orm/updater.go, orm/deleter.go and orm/inserter.go over
--             Conditions. Builders/Names is orm/internal/utils/nameutils.go, Builders/Columns has Build
--             of orm/column.go and orm/aggregate.go, Builders/Calls the calls of a builder,
--             Builders/Shared the model that the builders of a type share (orm/modelcache.go),
--             Builders/Rows Insert, and Builders/Upsert BuildUpsert of the dialects. A panic is none.
-- Handlers    orm/middleware.go and orm/sharding.go: the sharding manager of a DB over an interface of
--             routers, and in Handlers/Chain the handlers of queries with ShardingMiddleware. What
--             the databases answer is a parameter.
-- QueryCache  orm/cache.go, with Get and GetMulti of orm/selector.go and the functions Exec, over
--             Cache: what is read from the cache and what a statement removes there. The database is
--             a parameter.
-- Web         the server of web/. Web/Context is context.go, where the calls on the response writer are
--             kept as a list, Web/Response response.go with handleResponse of server.go, Web/Router
--             router.go with its second tree in Web/Legacy, over Routing and Middleware, Web/Groups
--             group.go and middlewaremanager.go, Web/Server ServeHTTP, and Web/Pools web/pool.
--             Template engines and pool managers are told apart by numbers. The encoders, package
--             path and what net/http answers about a request are parameters.
-- Sessions    web/session: the manager over the interfaces Storage and Propagator, and in
--             Sessions/Redis the storage of redissession, for which go-redis and the pool of
--             connections are a parameter.
--
-- Bounds: an int64 keeps its wrap-around in to_int64 and neg64, and a hash is reduced modulo 2 ^ 32
-- as in the code. The counts of databases and tables are natural numbers, and counters of statistics
-- do not overflow. The only recursion on fuel is the printing of decimal digits: the fuel n + 1 is
-- enough for n, which has at most n + 1 digits.
--
-- Not modelled: templates, static files and the life of the listener, logging, the joins and
-- subqueries of the builders, dialects and migrations, the database client and its collections,
-- transactions, cookies and the values of a session, CacheMiddleware and the package of cache keys,
-- orm/router.go, the tools and the examples; of the modelled files, WithErrorHandling, the timer of
-- the cache, ExecuteOnAllShards, ShardDBProvider, GetStats, the options of RoutingConfig, and in
-- orm/sharding.go ShardingDB, sharded collections, and Close and SetRouter of the manager.
pub mod Base
pub mod Routing
pub mod Middleware
pub mod Cache
pub mod Sharding
pub mod Conditions
pub mod Web
pub mod Sessions
pub mod QueryCache
pub mod Builders
pub mod Handlers
