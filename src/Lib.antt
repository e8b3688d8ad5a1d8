-- ===== src/Lib.antt =====
-- A model of the file host: an HTTP service that takes uploads, stores them under short slugs, serves
-- them until they expire, and keeps out what and whom its administrators have banned.
--
-- The parts, by file of the model and of the program:
--   Base            lists, byte strings, options, numbers, and state passing with failure
--   Bits            bit masks by arithmetic
--   Ip              src/ip.rs: the stored form of addresses, quota ranges, CIDR blocks, and whose
--                   word on a client's address is taken (X-Forwarded-For)
--   Ttl             src/ttl_cache.rs: the cache that the ban and challenge caches are made of
--   Throttle        src/rate_limit.rs: a bucket per client address, and the paced response body
--   Hex, Pow        src/util.rs, src/pow.rs: hexadecimal texts, tokens and the work on them
--   Times           src/util.rs: the reading of RFC 3339 times
--   Db              src/model.rs, src/db.rs: rows, tables, and a function for each query; Listing and
--                   Stats have the listing of uploads, the pairs of equal files and the statistics
--   Guard           src/ban_cache.rs, src/challenge.rs: cached answers to the checks
--   Intake          src/upload.rs: the detection of a file's type, and the loop that reads a field
--   Handlers        src/handlers.rs, with the slugs of src/upload.rs: the gates before an upload, one
--                   file's run, the scans that follow, the download, the pages (Pages, with
--                   src/templates.rs), and the lifetime of a file (Expiry, of src/upload.rs)
--   Clamd           src/clamd.rs: `scan_file` over a connection to the virus scanner
--   Nsfw            src/nsfw.rs: `rensfw`, the run over the images to classify, and `classify`
--   Sync            src/sync.rs: the blacklists and the bans made of them
--   Dedup           src/dedup.rs: links in place of equal files, and the hashing of stored files
--   Admin           src/admin.rs: the guard of the admin API (Auth), its replies, its routes (Uploads,
--                   Bans), and all of them behind the guard (Api)
--   Cli             src/cli.rs: the commands, with what they print, and their dispatch (Run)
--   Start           src/main.rs, src/settings.rs: the domains, the base URL, the classifier and the
--                   trust of proxies that are made of the settings
--   Service         the whole: a step for each handler, task and command (Reach), and what all of
--                   them keep (Kept, Leads, and a module for each part that keeps it)
--
-- How they interact. A route of Admin or a command of Cli calls a query of Db; a route that bans or
-- unbans empties the cache of Guard that it concerns, a command, which is a process of its own, does
-- not. An upload passes the gates of Handlers, which ask Guard and Db, is read by Intake behind the
-- Throttle, gets its slug and row, and is then scanned by Clamd's client and the classifier.
--
-- State. A handler's awaited calls are steps on one `World` (Db/World): the tables, the clocks, the
-- stored files and the caches. A step answers a result and the state after it, and what it wrote
-- before it failed stays written. Each call of the database takes the next of the list `outages`, so
-- every pattern of failures is covered, and a theorem that needs the database says so.
-- Other tasks run between two handlers, not within one; the exception is the cache's fetch, whose
-- interleavings are the turns of Ttl/Shared. So the steps of Service are whole handlers, tasks and
-- commands, in any order, and between them the clocks, the store and the caches may change at will.
-- Two uploads that run at once may take one slug: Service/Overlapped adds steps in which an upload
-- under way inserts a row at whatever slug. A connection to clamd
-- (Clamd) takes the results of its writes from a list in the same way. The process's clock shows the database's NOW().
--
-- Numbers. Addresses, ids and times are natural numbers, with the wrap-around of a cast written out.
-- A throttle counts in billionths of a byte and of a second. Scores are the bit patterns of
-- non-negative floats, which have their order.
--
-- Fuel. The search for a slug goes on until it finds one: the model follows it for a number of
-- attempts, and any number beyond that of a free candidate is enough (Handlers/Allocated). The
-- reference reading of the scanner's protocol looks for as many chunks as the stream has bytes, and
-- each takes at least four of them (Clamd/Framed).
--
-- Left to libraries, as arguments of the definitions: hash functions, random bytes, regexes, address,
-- time and type parsers, the form's limits, the database's collation, its AVG and
-- the order of its pages, percent-encoding,
-- the type sniffer, the request for a blacklist, floating-point operations, templates, the decoding of
-- pictures and the run of the classifier. Logging is left out. Not modelled: the parsing of the command
-- line and of the environment, migrations (the database has them all), temporary files, the connection
-- pool, and the set-up of the server and of TLS, which only call libraries.
pub mod Base
pub mod Bits
pub mod Ip
pub mod Ttl
pub mod Throttle
pub mod Hex
pub mod Pow
pub mod Db
pub mod Guard
pub mod Handlers
pub mod Times
pub mod Admin
pub mod Sync
pub mod Dedup
pub mod Clamd
pub mod Nsfw
pub mod Intake
pub mod Cli
pub mod Service
pub mod Start
