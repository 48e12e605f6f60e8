-- ===== src/Lib.antt =====
-- oldxr: the user-facing core of the XrayR proxy server, modelled and verified.
--
-- The server polls a panel for the users of each inbound, and serves their connections. These
-- parts work between the two, and this library models them:
--
-- * The limiter, common/limiter/limiter.go: Limiter.antt has its records, Limiter/Key the users'
--   keys, Limiter/Speed `determineRate`, Limiter/Users `AddInboundLimiter`,
--   `UpdateInboundLimiter`, `DeleteInboundLimiterUsers` and `DeleteInboundLimiter`, Limiter/Admit
--   `GetUserBucket` and `globalLimit`, Limiter/Online `GetOnlineDevice`. The other files below
--   Limiter prove. A `*rate.Limiter` is an address in an explicit heap, as the connections share
--   it.
-- * The reservations of the global device limit, common/limiter/global_cache.go: GlobalCache.antt
--   has `reserveLocal`, which counts where there is no redis.
-- * The audit rules, common/rule/rule.go: Rule.antt has `UpdateRule`, `Detect` and
--   `GetDetectResult`.
-- * The flow registry, app/mydispatcher/user_lifecycle.go: Flow.antt has `register`, `retire`,
--   `acquire` and `finalize`; Flow/Connection has the lifecycle of a connection from
--   app/mydispatcher/stats.go and `userIO.Release` of app/mydispatcher/default.go.
-- * The admission of a connection, `getUserIO` of app/mydispatcher/default.go: Dispatch.antt asks
--   the registry, then the limiter, and gets the counters. Dispatch/Direct has `selectOutbound` and
--   `DispatchDirect` of the same file.
-- * The traffic report, service/controller/control.go and the part of `userInfoMonitor` of
--   controller.go that collects it: Traffic.antt has `drainTraffic`, `restoreTraffic`,
--   `appendUserTraffic`, `flushUserTraffic` and the loop. A panic is the value `none`.
-- * The comparison of the panel's lists, `compareUserList` of service/controller/controller.go:
--   Users.antt has its loops and `sameRuntimeUser`.
-- * The clients of V2Board, api/v2board and api/newV2board: Clients.antt has what they share,
--   Clients/V2board and Clients/NewV2board their polls of the user list, and the Nodes below each
--   the nodes, the rules and the reports.
-- * The client of SSPanel, api/sspanel: Clients/Sspanel has the users and the reports, and the
--   Nodes and Custom below it the nodes, from a server's string or from custom_config.
-- * The clients of ProxyPanel, PMPanel and V2RaySocks, api/proxypanel, api/pmpanel and
--   api/v2raysocks: Clients/Proxypanel, Clients/Pmpanel and Clients/V2raysocks.
-- * The controller, service/controller/: Controller.antt has its state and what it asks of
--   xray-core and of its panel client. Controller/Builders has userbuilder.go, Controller/Server
--   the calls of xray-core in control.go, Controller/Retirement user_retirement.go,
--   Controller/Handlers the handlers of a node, Controller/Monitor `nodeInfoMonitor` and
--   Controller/Start `Start`. Controller/SpeedLimits has the automatic speed limit and
--   Controller/Reporting `userInfoMonitor`. The other files below Controller prove.
-- * The waits of a rate limit, common/limiter/rate.go: Rate.antt has `waitRateLimit`.
--
-- Api.antt has the values of api/apimodel.go that these exchange with the panel clients. Base has
-- what Go's library means for the program: strings as bytes, maps as association lists, decimal
-- numerals, integers.
--
-- The dispatcher asks the registry, the limiter and the rules about each connection; the
-- controller changes the three when the panel's lists change. All of them know a user by the key
-- that `formatUserKey` makes.
--
-- Each operation is one step: the code makes it atomic by a lock (the registry) or by a lock for
-- the user's key (the limiter). Go's int is an integer, a uint64 a number. The loops are over
-- lists and need no fuel, except for printing a number, where the value itself bounds the digits,
-- and for the chunks of a wait, each of which takes a byte at least. A map's iteration order is
-- that of the list. rate.Limiter, regexp, mapset, msgpack, the counters and the cache that the
-- limiter is given are parameters, with their documented laws where a theorem needs them.
--
-- The HTTP of the panel clients is resty's, and its JSON is encoding/json's and simplejson's: both
-- are arguments.
--
-- Not modelled: the construction of xray-core's handler configurations, the links of `Dispatch` and
-- the sniffing of a connection, redis, certificates, logs, timeouts, and the scheduling of the
-- controller's tasks: a monitor's round is one step.
pub mod Base
pub mod Api
pub mod Limiter
pub mod Rule
pub mod Flow
pub mod Traffic
pub mod Rate
pub mod Users
pub mod Dispatch
pub mod GlobalCache
pub mod Clients
pub mod Controller
