-- ===== src/Lib.antt =====
-- A verification library for droute, an HTTP router and reverse proxy.
--
-- A request comes to the host switch (router/hostswitch.go), which picks a router by the host name.
-- The router calls the chain that Router.Add built for the route (router/router.go): Handler fills a
-- response in memory (responsewriter/responsewriter.go) by Retry (router/retry.go), Balance
-- (router/loadbalance.go) and CircuitBrake (router/circuitbrake.go) around the proxy, and copies it
-- out. Sessions (sessions/) are kept in memory or in a BoltDB database.
--
-- Files and what they model:
--   Prelude            shared names: strings as lists of bytes, Go maps, slices, sort.Search, runes
--   Http               net/http's headers and the interface http.ResponseWriter
--   ErrHandler         errhandler/err.go: ErrHandler
--   ResponseWriter     responsewriter/responsewriter.go: ResponseWriter, Copy, Handler
--   Router/Match       router/loadbalance.go: matchWildcard, matchNamedParam
--   Router/RoundRobin  router/loadbalance.go: LoadBalance, RedirDst, RoundRobin, findPath
--   Router/Exchange    the request, and responsewriter.HandlerFunc as a function on an exchange
--   Router/Retry       router/retry.go: Retry
--   Router/Balance     router/loadbalance.go: Balance
--   Router/Proxy       router/proxy.go: Proxy
--   Router/CircuitBrake  router/circuitbrake.go: CircuitBrake
--   Router/Server      router/router.go: Routers, Start, SetHTTPAddr, SetHostSwitch, Add;
--                      router/hostswitch.go: HostSwitch
--   Sessions/Ordered   sessions/memstorage.go: Ordered
--   Sessions/Entry     sessions/memory.go: MemEntry; sessions/cache.go: CacheEntry
--   Sessions/Memory    sessions/memory.go: MemSessions
--   Sessions/Cleanup   sessions/memstorage.go: Transaction, Iter; sessions/memory.go: the clean-up, del
--   Sessions/Bolt      sessions/boltdb.go: Stamp for the times as keys, Database for BoltDB, Store for
--                      SessionsBoltDB, Data for SessionBoltDB and MsgPackCodec
--   Router/Routes      router/router.go: Route, Routes, Get, AddRoute, addRoute, getRoute, localhost
--   Middlewares/Lists  list/list.go: TextList, Regexp; router/ipblock.go: IPBlock
--   Middlewares/Documents  middlewares/cache/docs.go: Text, Image
--   Middlewares/Storage  middlewares/cache/cache.go: Storage, the round of its clean-up
--   Middlewares/Caching  middlewares/cache/handler.go: Cache, exec, cacheCtrl
--   Middlewares/Bucket   middlewares/bucket/bucket.go: LeekingBucket
--   Middlewares/UserRequest  middlewares/request/request.go: UserRequest, timeZoneJS2utc
--   Middlewares/BasicAuth  middlewares/basicauth/basic.go; handler.go: BasicAuth
--   Middlewares/Compress  middlewares/compress/compress.go: Compress
--   Middlewares/Referrer  middlewares/iplists/referrer.go, ip.go: Referrer, IPBlock
--   Middlewares/Scheme   middlewares/scheme/scheme.go: Redirect, ChangeProto
--   Middlewares/FileServer  middlewares/fileserver/stripprefix.go: StripPrefix
--   Middlewares/UserSessions  middlewares/sessions/handler.go: Handler; cookies.go: Cookie
--   Middlewares/Users  middlewares/basicauth/handler.go: Users, splitHash
-- The proofs stand in child modules named for what they prove, and the runs in modules named Tests.
--
-- How the code is read:
--   - A method with its lock held is one step, a function from a state to a state and an answer.
--   - A string is the list of its bytes. A Go map is an association list without an order of its
--     own: a range over it goes through `visit`, of which only `Visits` is known.
--   - A pointer to an object that two parts share is an address: the routers (a heap in Server) and
--     the sessions (the fields `last_seen` and `owner` of MemSessions).
--   - A handler gives none where the code panics.
--   - Go's int is unbounded here, where it counts positions of a slice; the uint of a use count wraps
--     at 2 ^ 64, and so does the int of a time zone's minutes, after Atoi's test of the range
--     (Prelude/Ints). A time is a number.
--   - httprouter, gobreaker, the checks of github.com/fcavani/text, url.Parse, idna.ToUnicode and the
--     JSON encoder and decoder, regexp, viper, securecookie, base64, MD5 and the other hashes, and
--     the address of a request, the HTTP client, the writers of compress,
--     BoltDB, msgpack and afero are parameters. The hypotheses on them are
--     HandledIsFound, Documented, IsEncoding, Indexes, Children, RoundTrips, Files, DecodesHeaders, Removes,
--     Decodes and Lossless. A Handle of httprouter that panics may have changed its router before. A
--     header comes back from JSON as it was if its strings are ASCII, and RemoveAll of an empty folder
--     takes away no file.
--   - WithContext copies the URL of the request and shares its header, as with the Go versions from
--     go.mod's 1.13 to 1.16.
--   - The recursions are structural, on lists and on the number of rounds of Retry; sort.Search is
--     recursion on fuel, which `search_index-IsLeast` shows to be enough.
--
-- Not modelled: the network and the listeners (http/http.go, client/client.go, etcd/etcd.go,
-- main.go), logging, what the proxy's goroutine does after a timeout, the
-- interleaving of the clean-up with other methods, the list of crawlers, and the middlewares
-- redirect, hsts, expire and minify, each one call of a library.
pub mod Prelude
pub mod Http
pub mod ErrHandler
pub mod ResponseWriter
pub mod Router
pub mod Sessions
pub mod Middlewares
