-- ===== src/Lib.antt =====
-- unified-proxy-pool serves clients through a pool of proxies. This library models the parts that
-- decide which proxy may be used for what.
--
-- Parts, with the code they model (paths from the root of the repository) and how they interact:
--
-- - ChanPolicy (internal/chanpolicy): the registry of channels, the destinations of requests. Record
--   counts the outcome of a request by channel and proxy, evaluates the rules, and bans the pair for a
--   time; selection asks Banned or BanSet before it hands out a proxy.
--   - Policy: Policy.Normalize and its fields (policy.go).
--   - Window: the ring of buckets and the streak of failures (window.go). Window.History is the list of
--     outcomes that a ring stands for.
--   - Name: Normalize, hostOf, NormalizeChannelName (normalize.go).
--   - Log: the ring of the last outcomes (log.go).
--   - Rule: Rule, its kinds, matches, normalizeRule (rule.go).
--   - Registry: State has the records and Registry itself; Evict is channelLocked, entryLocked and the two
--     evictions, with one `scan` for both loops; Evaluate is evaluateLocked and banTTL; Outcomes is
--     Record; Admin has SetPolicy, Unban, ResetChannel, DeleteChannel, Sweep, Allow, Deny; Rules has
--     AddRule and DeleteRule; Restore has what the start of the program takes over; Views has Banned, BanSet, Bans, Channels, Totals, Logs; Invariant is what a registry keeps.
-- - Blacklist (internal/blacklist/store.go): hosts that are never dialed.
-- - Sticky (internal/sticky/store.go): the upstream a client had last.
-- - ApiToken (internal/apitoken/scopes.go): what the scopes of a token grant.
-- - FreeProxies (internal/freproxies): the pool of free proxies.
--   - Score: the quality score, its smoothing, and the family of an address (types.go).
--   - Store: memoryStore of store.go, the store that serves without Redis; Store.Queries is what it is
--     asked for, with selectValidateRaw of store_validate.go and ListFilter of types.go.
--     Store.Calls.call runs its operations from a list; Store.Stages.Move is the lifecycle of an address.
--   - Groups: the rules of groups and their names (groups.go, types.go), on the map of groups.
--   - Selection: pick.go; Selection.Candidates is candidates.go up to Pick. Guards is what Pick asks of
--     the blacklist, the country filter, SourceStats and ChanPolicy; Backend is what it asks of the hot
--     cache and the store.
--   - Tune is sourcetune.go: which sources the history of yields speaks against; Tune.Yields is that
--     history in memory (sourceyield.go).
--   - Health is health.go, HotCache is hotcache.go.
-- - CfScan (internal/cfscan/expand.go): the addresses of a scan, from a text.
-- - SourceStats (internal/sourcestats): the outcomes of each source, and the sources that are switched off
--   for a while. SourceStats.Calls.call runs its operations from a list.
-- - DirectProxy.Throttle (internal/directproxy/throttle.go): the token bucket of a relayed connection.
-- - Base has what the parts share: texts, maps, lists, sorting, times.
--
-- How the code is read:
--
-- - A string is a list of bytes; ToLower, TrimSpace, Contains and EqualFold are those of ASCII. A map
--   is an association list in the order in which `range` visits it; theorems hold for every order. What
--   List gives in the order of one call is an argument, since another call has another order.
-- - A time is a number of nanoseconds since Go's zero time, so IsZero is a test for 0. A difference of
--   times stops at 0; the code compares differences with positive spans only.
-- - int counters, times and sequence numbers do not overflow. The length of a ban is an int64 of
--   nanoseconds that wraps around (Base.Durations), since no bound keeps its products small.
-- - A status that is not positive is 0.
--   A float64 rate is a number of millionths, and fail/total >= rate is compared by products.
-- - A lock makes an operation atomic, or a turn of the loop of take, which frees it before it sleeps.
--   An operation is a function from the state and the time it reads
--   to the state and its result. What an operation sends to the persister and the hooks is appended
--   to a trace; both are taken to be configured. The nil receiver is not modelled.
-- - The reason of a ban is a data type instead of a text. itoa is a function of its own: it gives none
--   where its eight bytes do not suffice and the code would panic.
-- - The loops are structural recursions. The loop of banTTL recurses on the strikes. Only the loop of
--   take, DirectProxy.Throttle.take_loop, runs on fuel: other takes can keep it waiting without bound, so
--   no fuel is enough for all of them, and the theorems are on the turns of all takes together.
-- - A draw of the random source is an argument: the swaps of a shuffle, and the indexes that are drawn.
-- - The public suffix list, net.ParseIP, net.ParseCIDR, the random order of rand.Shuffle, the answers of SQL and of the proxy store,
--   and the new identifier of a rule are arguments.
--
-- Not modelled: network I/O, HTTP handlers, SQL text, commands to Redis, timers and goroutines that only
-- call the operations above, and the packages for nodes, subscriptions, pools, crawlers, validation, mihomo,
-- settings and traffic.
pub mod Base
pub mod ChanPolicy
pub mod Blacklist
pub mod Sticky
pub mod ApiToken
pub mod FreeProxies
pub mod SourceStats
pub mod DirectProxy
pub mod CfScan
