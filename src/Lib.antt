-- ===== src/Lib.antt =====
-- The WhatsApp daemon of wa-agent-pipeline, a Go program under whatsapp-daemon/: it keeps an
-- allowlist of chats (internal/config), takes messages from a WhatsApp session (internal/auth),
-- clears them by the policy of their chat (internal/listener), stores them in SQLite with their
-- media files (internal/writer, internal/sqlite), reports its health (internal/health), serves
-- backfills and change subscriptions on a local socket (internal/control) and lists unseen
-- messages for a tenant (internal/unseen). The models below are translations of the Go code, and
-- a function has the name of the Go function in snake case.
--
-- Config models internal/config/config.go: Load as a fold over the entries of the decoded file
-- with the sets of the loop (Config), supportedChatJID (Config/Jid), normalizeTenants
-- (Config/Tenants), sameGroup (Config/Equality) and the Manager with Reload, Watch, Subscribe
-- and its lookups (Config/Manager). A channel of changes is its buffer of at most four.
--
-- Sqlite models internal/sqlite/sqlite.go. The engine may fail at any call, and a COMMIT that
-- fails may leave the transaction open; a statement is a function on the tables, given where the
-- SQL text stands. Writer models internal/writer/writer.go: the data and the names of files
-- (Writer), EnsureGroups and the transaction of Write with its upserts (Writer/Store), and Write
-- with source keys, media files and their marks (Writer/Write), and EnsureSchema over the
-- statements of internal/writer/schema.sql, against a catalogue of tables, columns and indexes
-- (Writer/Schema). SHA-256 is a parameter. Files models the calls of package os with which
-- writeMedia and atomicWriteText replace a file; any call may fail.
--
-- Unseen models internal/unseen/unseen.go: the chats of a tenant, the cutoff, the query, the
-- cursor and the marks of surfaced media (Unseen), the printed digest (Unseen/Display), and Run
-- with its tests of the paths (Unseen/Entry). The engine's order of rows and the formats of
-- times and sizes are parameters.
--
-- Session models internal/auth/auth.go: the event of a message (Session/Message), the policy and
-- the download before it is stored (Session/Handling), the history sync with its counts
-- (Session/History), the events of the connection (Session/Connection), the queue between the
-- event handler and the worker (Session/Queue), and the goroutines of the history syncs with the
-- shutdown of Serve as steps (Session/Serve). The client of whatsmeow is a parameter: a
-- download, the parser of a JID and the parser of a message. A history sync is given the number
-- of times that the check of its context still returns nil.
--
-- Paths models internal/paths/paths.go and the default paths of the other packages, and Command
-- the modes of whatsapp-daemon/cmd/whatsapp-daemon/main.go with their exit codes; the flags that
-- were given, the readings of time.Parse in ParseTimestamp (Backfill/Timestamps) and the parts
-- that a mode calls are parameters.
--
-- Listener models internal/listener/listener.go over an abstract store, Health the status of
-- internal/health/health.go, and Control the server and the client of
-- internal/control/control.go over an abstract executor, with the loop of the client and what it
-- prints (Control/Dialing), which is run against the server's answers
-- (Control/Dialing/Answered), the socket from Start to Close (Control/Socket), its change
-- subscriptions (Control/Changes), and the daemon's own executor over the model of the backfill
-- (Control/Daemon). Backfill models internal/backfill/backfill.go: the summaries of answers,
-- their verdicts and their merging (Backfill, Backfill/Summaries), the lookup of anchors among
-- the stored messages (Backfill/Anchors), the retries of a request and the wait for the client
-- before each (Backfill/Sending), and RunProcessedRequests over a world that sends, sleeps,
-- tells the time and runs the callbacks (Backfill/Requests); its loop runs on fuel, the limit of
-- the request, which is enough because each round asks for one message at least. A connection is
-- the decoded request and the list of events that are written to it.
--
-- Go's int64 is the integer type of Base/Int; texts are lists of code points (Texts). Locks make
-- each method one step. Recursion is structural, but for print_int, which runs on fuel, the
-- number that it prints, which is more than its digits, and the loop of requests.
--
-- Not modelled: the bindings of the C library, logging, the loops of tickers and sockets,
-- pairing and the wiring of a session, which are calls of whatsmeow, and of the command line the
-- signals, the usage texts and the goroutines that reload the allowlist.
pub mod Command
pub mod Paths
pub mod Base
pub mod Texts
pub mod Config
pub mod Files
pub mod Sqlite
pub mod Writer
pub mod Health
pub mod Listener
pub mod Control
pub mod Backfill
pub mod Session
pub mod Unseen
pub mod Tests
