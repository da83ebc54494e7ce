-- ===== src/Lib.antt =====
-- Verification of cartridge, a Go framework for web applications on Fiber, GORM and SQLite.
--
-- An application starts its background workers and its HTTP server. The server puts global
-- middleware and static files before the routes; a route runs its handlers in order (the
-- Sec-Fetch-Site check, CORS, the write limit, custom middleware) and then its own handler, which
-- reaches the database through a connection manager, writes in transactions that retry while
-- SQLite is busy, keeps sessions in signed cookies, and stores values in caches. Job dispatchers
-- run processors in the background.
--
-- The files and the code that they model, with the names of the code in snake case:
--
-- * GoMap models Go's maps as association lists without an order that counts; a range over a map
--   is an argument, any list that visits each key once.
-- * Strconv models strconv.FormatUint, strconv.ParseUint and strings.Split over bytes. The fuel
--   of the digits is one more than the number, which has fewer digits.
-- * Cache/Options models cache/store.go, the options and their defaults.
-- * Cache/MemoryStore models cache/memory_store.go. Each method runs under the lock and is one
--   function on the store's state; the clock's reading is an argument. Queue is the abstract
--   bounded queue that the store implements, Represents the relation between them, Refines the
--   theorem over sequences of calls, Cleaning what the background cleanup changes for readers.
-- * Cache/DatabaseStore models cache/database_store.go, on a table with one row for each key. The
--   errors of the statements, the keys that a subquery gives and the matches of a pattern are
--   arguments.
-- * Cache/GormCache models cache/gorm_cache.go. Get is two steps, before and after it has the
--   lock, since other goroutines run between them; encoding/gob is an interface without laws:
--   that a value comes back as it was is a hypothesis where it counts. Gets is about hits,
--   fetches and times, Outage about a fetch that fails.
-- * Cache/Generic models cache/cache.go, with each locked section as a function of its own, since
--   other goroutines run between them.
-- * Sqlite/Transaction models sqlite/transaction.go. A write is the list of what it does to the
--   mutex, the database and the clock, with its result; the errors that it meets are arguments.
--   The loop recurses on the attempts that are left, so it needs no fuel. Writers has the writes
--   of many goroutines at once: Finish is about their end, Panic about a callback that panics.
-- * Sqlite/Manager models sqlite/manager.go, on the same answers. Its errors are its own.
--   Pluggable compares it with the manager of package database, whose errors have other texts.
-- * Session models session.go, over an interface of base64, JSON and HMAC with the laws that are
--   documented for them. Strings of bytes are lists.
-- * Database/Driver, Database/Manager: database/config.go, database/manager.go, sqlite/driver.go
--   and postgres/driver.go. A call is one function on the manager's state; what GORM answers is
--   an argument. Once runs sequences of calls; Reopen is about Close.
-- * Middleware/Chain, Middleware/SecFetch, Middleware/Concurrency: handlers as functions from a
--   request to an answer or to the call of the next handler, middleware/sec_fetch.go, and
--   middleware/concurrency.go over a semaphore that is a parameter. Requests has the steps of
--   many requests at once, Limiter the limiter with both its semaphores. Middleware/RequestLogger
--   models middleware/request_logger.go.
-- * Server models server.go, as the list of registrations with the Fiber application. Routes is
--   registerRoute, Setup is NewServer, Errors is the error handlers of errors.go and server.go,
--   ErrorPage the text of the error page, Shutdown the steps of the server's shutdown, and
--   Requests what the global middleware and the error handler, given or the default one, make of
--   a request's error or panic.
-- * Jobs models jobs.go, as steps of the callers and of the loops in any order. Invariant and
--   Serial add the rule that Start waits for every Stop.
-- * Flash models flash/flash.go, over an interface of base64 and JSON.
-- * Inertia models inertia/inertia.go: Props is what a first load and a partial reload bring,
--   Manifest is the package's variables and Vite's manifest, Page is Render, Page/Contents what
--   the page object of an answer holds, and Page/Answers what is sent. The props are a map that
--   is not nil; the order of range over it is an argument, and so are encoding/json and the
--   files.
-- * Config models config/config.go. The package viper is an argument, which turns the defaults
--   and the bindings into a configuration; Config/Paths is package filepath on Unix. Names of
--   applications and levels are lowered and raised in ASCII.
-- * Logger models logger.go: which logger an application gets, and the coloured handler.
-- * Crypto models crypto/crypto.go, over interfaces of AES-GCM, base64 and bcrypt.
--   Database/GormLogger models database/gorm_logger.go, Middleware/RateLimiter models
--   middleware/ratelimiter.go, and Structs models structs/map.go. Structs/Unordered is about its
--   maps in the quotient of GoMap/Unordered, which forgets the order of a map's list.
-- * Factory models factory.go, inertia_factory.go, migrations.go and NewApplication of
--   application.go: SsrApp and InertiaApp are the two factories, with their options as data,
--   Migrations the migrations; Wiring and InertiaWiring are about what the factories put
--   together, CrossOrigin about the option for requests from other sites. Mounting routes and the
--   init callback are functions on the server.
-- * Context models context.go and wrapHandler of server.go: the database session that a request
--   keeps, over Sqlite/Manager. Outage is about requests behind a connection that failed.
-- * TestSupport models package testsupport: testsupport/database.go, testsupport/helpers.go and
--   testsupport/server.go. Servers is about the servers that it makes.
-- * Application models application.go, as the list of what is started, served and stopped.
--   Signals has RunWithTimeout as steps beside the operating system and its signals. Dispatchers
--   is about the end of an application whose workers are those of Jobs.
--
-- Numbers that only count are natural numbers; the clock, durations and limits that can be
-- negative are integers. The machine's bounds are written out where the code depends on them (the
-- user ids of sessions, and the delay between retries, whose int64 can overflow), and not
-- elsewhere: other instants and durations do not overflow. Floating point appears only in the
-- retry delay: its jitter, and the conversion of a product out of the range of int64, which Go
-- leaves to its implementations, are arguments of the model.
--
-- Not modelled: most log entries, tickers, HTTP parsing and routing by Fiber, templates and
-- static files beyond their registration, RenderPage, which calls Render with a fixed template,
-- and the counting of the rate limiter.
pub mod Prelude
pub mod GoMap
pub mod Strconv
pub mod Cache
pub mod Sqlite
pub mod Session
pub mod Database
pub mod Middleware
pub mod Server
pub mod Jobs
pub mod Application
pub mod Flash
pub mod Inertia
pub mod Config
pub mod Logger
pub mod Factory
pub mod Crypto
pub mod Structs
pub mod Context
pub mod TestSupport
