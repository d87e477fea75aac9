-- ===== src/Lib.antt =====
-- A verification library of Konsul, a service registry and key-value store: of its web console, the
-- React front end in web/admin, and of five parts of its server: the access control lists in
-- internal/acl, the replicated key-value store and service registry in internal/store, the load
-- balancer in internal/loadbalancer, and the watches in internal/watch.
--
-- The console is a client of the server's HTTP interface. All calls but those of the API keys page
-- go through one axios instance, whose interceptors add the stored token and renew it after a 401.
-- The session is kept by AuthContext in React's state and in localStorage; WebSocketContext keeps
-- a connection for live updates while somebody is signed in; the router shows the pages to a
-- session and the login form to others; the pages call the client and hold the state of their
-- forms.
--
-- Files and code:
--   Value                 JavaScript values as the code finds them at run time: truthiness,
--                         `String(v)`, property access, errors
--   Http, Http/Storage    localStorage, requests, what a browser keeps, actions with errors
--   Api and below         web/admin/src/lib/api.ts, the interceptors: with_token (request), call,
--                         intercept, on_rejected, refresh, sign_out (response)
--   Api/Flight and below  the same interceptors when several calls are under way: each call is a
--                         machine (Flight), and calls take turns (turn, turns)
--   Endpoints and below   web/admin/src/lib/api.ts, the exported calls
--   Auth and below        web/admin/src/contexts/AuthContext.tsx: mount, login, logout,
--                         refresh_access_token
--   Live and below        web/admin/src/contexts/WebSocketContext.tsx: connect, run_effect and the
--                         handlers of a socket as the steps of a machine
--   Routes and below      web/admin/src/App.tsx and the components ProtectedRoute, Sidebar, Navbar
--   Pages/Login           web/admin/src/pages/Login.tsx
--   Pages/Navbar          web/admin/src/components/Navbar.tsx, ConnectionStatus.tsx
--   Pages/Services        web/admin/src/pages/Services.tsx, components/ServiceCard.tsx
--   Pages/KeyValues       web/admin/src/pages/KVStore.tsx, components/KVEditor.tsx
--   Pages/ApiKeys         web/admin/src/pages/APIKeys.tsx
--   Pages/Cards           web/admin/src/components/StatCard.tsx
--   Pages/Dashboard       web/admin/src/pages/Dashboard.tsx
--   Pages/Health          web/admin/src/pages/Health.tsx
--   Pages/Uptime          the two formatUptime of web/admin/src/pages/Health.tsx and Dashboard.tsx
--   Pages/Updates         the effects of the pages that subscribe to live updates, with the provider
--   Acl and below         internal/acl: policies and their patterns (types.go), the evaluator and its
--                         decisions (evaluator.go); Acl/Glob is what a pattern is made of, and
--                         Acl/Regexp the fragment of Go's regular expressions that Compile writes
--   KvStore and below     internal/store/kv.go: the operations that replicas apply, with the commands
--                         of internal/raft/fsm.go; each operation has its name in snake case;
--                         KvStore/Notices has the events that they send to the watchers
--   Registry and below    internal/store/service.go and service_index.go: the operations that replicas
--                         apply, with the commands of internal/raft/fsm.go (Registry/Commands),
--                         validation.go (Registry/Validate) and service_query.go (Registry/Query)
--   LoadBalancer and below
--                         internal/loadbalancer/balancer.go, over the queries of the registry
--   Watch and below       internal/watch: watchers, their patterns and the sending of events
--   Prelude and below     tests, lists and texts that the parts share
--   Tests and below       concrete inputs
-- A name in camel case of the source is the same name in snake case here; a React component's state
-- is a record of its cells, and its handlers are functions on that record and the browser.
--
-- The server decides each request by the policies that a token names: internal/acl keeps the
-- policies, turns their patterns into regular expressions, and looks for a rule that matches. Keys
-- and values are kept by every replica in a map with an index for each write; the replicas apply
-- the same log of commands, or start from a snapshot. The registry keeps services with the end of
-- their lease, which a heartbeat moves, and two indices, by tag and by metadata, for the queries;
-- the load balancer chooses among the services that a query gives. Watchers get the changes of the
-- keys that their pattern matches and their policies allow.
--
-- Parameters: the server is a function of the requests so far and the next one, so that every
-- sequence of answers is covered. JSON.parse and JSON.stringify, atob, toLowerCase, parseInt and
-- the comparison of path segments by the router are arguments of what uses them, and so are Go's
-- regular expressions, its random numbers, `filepath.Match`, the logarithm of a size, toFixed and
-- the local form of a date. The cache of the queries is a parameter with its operations. What a
-- theorem needs of them stands among its hypotheses.
--
-- Bounds: `api` calls itself through its interceptor; the definition allows two levels, and the
-- equation of the source is proved for it, so that the bound is never met. Indices of the two
-- stores wrap around at 2 ^ 64; a time is a natural number. A decimal number of n
-- is written in at most n + 1 rounds. All other recursions are on the data.
--
-- Not modelled: parallel requests but those of Api/Flight and of a list of keys (Endpoints/Pairs),
-- what the library that caches the queries does, dates, layout and styles, the logs of
-- the browser, time stamps, the persistence engine
-- of the two stores, the health checks of services, the strategies of the load balancer by weight,
-- hash and region, the bundles that the build generates from this code, and the rest of the server
-- with its programs and libraries in Go.
pub mod Prelude
pub mod Value
pub mod Http
pub mod KvStore
pub mod Registry
pub mod LoadBalancer
pub mod Watch
pub mod Api
pub mod Endpoints
pub mod Auth
pub mod Live
pub mod Routes
pub mod Pages
pub mod Acl
pub mod Tests
