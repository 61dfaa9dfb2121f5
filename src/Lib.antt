-- ===== src/Lib.antt =====
-- Greyd: a spam deferral daemon. Its SMTP front end stutters at clients and answers with a temporary
-- failure; what it learns of a client's envelope goes to the greylisting engine, which keeps entries
-- in a key/value store; a periodic scan of the store turns a tuple that was retried in time into a
-- whitelisted address and forgets what has expired. Blacklists are sets of networks, read from lists
-- of addresses and ranges.
--
-- The modules, and the code that each is about (paths from the repository's root):
--   Core      internal/core/tuple.go, store.go: tuples, keys, entries, NormalizeEmail.
--   Kv        adapters/db/kv/kv.go: EncodeKey, DecodeKey, EncodeData, DecodeData, DomainMatches.
--   Memory    adapters/db/memory/memory.go: the in-process store. A database is three maps from
--             encoded keys to encoded entries; View and Update take the function that they run, and
--             an Update keeps the transaction's copy only when there is no error.
--             Memory.Transactions is Get, Put and Del of internal/core/store.go.
--   Scan      Scan of adapters/db/kv/kv.go, a walk over a sorted snapshot of the keys in which every
--             round may change the database.
--   Bolt      Scan of adapters/db/bolt/bolt.go, over the operations of a bucket of the bbolt library, which
--             are a parameter (Get, Put, Delete and a cursor); Rounds, Rekeyed, Walks and Equivalent relate
--             it to Scan.
--   Ip        internal/ip/ip.go. A uint32 is a number, with its wrap-around written out.
--   Blacklist internal/blacklist: Radix is trie.go, the module itself blacklist.go.
--   Spamdlist internal/spamdlist: Scanner is scanner.go, Parser is parser.go.
--   Grey      internal/grey/greylister.go and domains.go: ProcessMessage (Grey.Messages),
--             processGrey, processNonGrey, trapCheck; Grey.Rounds is ScanOnce. The engine takes the
--             store and returns the new one, its result, and what is announced to other hosts.
--   Ipc       internal/ipc: Scan and Classify are the parser of codec.go, Writer is writer.go with Utf8
--             for its strings.Map, Frame is the reader of frame.go over the lines of the stream.
--   Sync      internal/sync: Wire is wire.go, the packets between hosts; Engine is engine.go, what a
--             host announces, what it does with a packet, and its replay window.
--   Stats     Summarize of internal/stats/stats.go.
--   Config    internal/config: Variables, Sections and the module itself are value.go, section.go and
--             config.go; Order is a map with the slice of its keys; Loader is loader.go with the include
--             queue, Builder the builder of parse/parse.go over the statements that the generated parser
--             returns. Merge, Laws, Invariant, Loads and Parsed have what holds of them.
--   Settings  internal/settings/settings.go: Schema is the structs' tags, Fields is decode and setField,
--             the module itself Load and Validate.
--   Cli       internal/cli/getopt.go: Parse.
--   Greydb    internal/app/greydb/greydb.go: Options is its command line; the module itself applies keys
--             to the in-process store, in batches, and lists and counts the entries.
--   Smtp      internal/smtp: Text, Reply and Next are the text helpers, the replies and NextState;
--             Proxy is proxy.go with applyProxyHeader and rematchAfterProxy; Io is what drives a
--             connection, from NewConn to Serve, over a list of arrivals and a list of which writes
--             succeed; Counters is the Counters type of conn.go. A connection notes what it does
--             elsewhere in its effects, in order. Invariant has the laws by which a property of a
--             connection is kept by all of this; Accounting and Clean are two such properties.
--   Tests     the theorems at concrete inputs, and runs of the definitions.
--
-- A Go string is the list of its bytes, an int64 an integer whose additions wrap at 64 bits
-- (Base.Int), an error a value (Result). The loops on fuel: RangeToCIDRs has one round more than there
-- are addresses; the scanner and the parser of lists have one round more than there are bytes, since
-- every round but the last takes a byte, and so have the parser of messages and the decoder of packets.
-- Serve is run for any number of rounds. LoadFile has a round for each file nested in another, and as
-- many as there are files are enough; the batches of greydb have a round for each key.
--
-- Parameters: netip.ParseAddr and Addr.String, the SPF checker's results, the clock, the
-- time's text in the banner, the original destination of a connection, whether a tuple can be
-- written to the greylister's pipe, what the counters are when a client is found blacklisted, and the
-- HMAC of a packet, of which the theorems use that it has 20 bytes.
--
-- Not modelled: the SQL stores, the other operations of the bolt store, the firewalls, the generated parser of the configuration,
-- sockets and timers, privileges and sandboxes, and the programs' start-up; they call the system or a library, or
-- are not covered yet. Logging is left out everywhere. Locks are taken as the atomicity of the
-- operations that hold them throughout.
pub mod Base
pub mod Result
pub mod Core
pub mod Kv
pub mod Memory
pub mod Ip
pub mod Blacklist
pub mod Spamdlist
pub mod Scan
pub mod Ipc
pub mod Stats
pub mod Bolt
pub mod Cli
pub mod Greydb
pub mod Config
pub mod Settings
pub mod Grey
pub mod Sync
pub mod Smtp
mod Tests
