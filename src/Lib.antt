-- ===== src/Lib.antt =====
-- sdcio schema-server: a server that keeps YANG schemas and answers what is at a path of a schema.
--
-- The program parses YANG files with the library goyang (pkg/schema), keeps the parsed schemas in
-- memory (pkg/store/memstore) or, flattened into one entry for each schema node, in a badger database
-- (pkg/store/persiststore), and serves both over gRPC (pkg/server). Paths of a request are messages
-- or text (pkg/utils/path.go). A store calls pkg/schema to parse, to look up and to expand; it calls
-- pkg/utils to make a path into index strings.
--
-- Files, and the code that each models:
--   Base      the names that all modules share: tests, lists, text as code points, sorting, maps as
--             association lists, and `Result`, which is a value, a Go error or a run-time panic
--   Sdcpb     the messages of sdc-protos, with the fields that the program uses
--   Xpath     pkg/utils/path.go: Parse is ParsePath, toPathElems, toPathElem and parseXPathKeys;
--             Strings is ToStrings, sortedVals, CompletePath and ToXPath; Printable says which paths
--             have a text that can be read back; Scan, Keys, RoundTrip and Origin are proofs
--   Config    pkg/config/config.go and schema.go: validateSetDefaults
--   Yang      the entries of goyang; the methods that classify an entry are the parameter Goyang
--   Schema    pkg/schema: Children and Element are getChildren, getParent, leafFromYEntry,
--             leafListFromYEntry and what they call, Container is containerFromYEntry, Lookup is
--             GetEntry and GetEntryCh, BuildPath is BuildPath and findChoiceCase, Expand is
--             ExpandPath, Load is NewSchema, Reload and the search for files, References is
--             references.go: buildReferences, normalizePath and the relative paths of leafrefs; Kept,
--             Annotated, Exact and Relative below it are proofs
--   Store     pkg/store/store.go; Store.Mem is memstore.go; Store.Keys, Store.Badger and
--             Store.Persist are persiststore.go: the keys of the database, the libraries under the
--             store, and its schemas with the operations that change them; Store.Persist.Reads reads
--             the entries: GetSchema with its cache, and ToPath; Expand is ExpandPath, Elements is
--             GetSchemaElements and Open is New. The other children of Store.Persist and Store.Mem are
--             proofs, by operation; Stored says what the batch of AddSchema holds, Found what is read
--             of it. Store.Interface is the interface that both stores
--             implement, with a set of keys as its abstract view. Sample holds concrete libraries for
--             the tests
--   Server    pkg/server: Io is calls that change a state and may fail, Os the operating system and the
--             hashes; Upload is the loop of UploadSchema, Rpcs the handlers UploadSchema and
--             GetSchemaElements over any store, Start is NewServer of server.go, with the goroutines
--             that load the configured schemas as schedules of their steps; Complete, Working,
--             Pending, Names, Uploaded, Growth and Loaded are proofs
--   Client    client/cmd/schema_upload.go: Upload is the division into chunks and the messages, Sender
--             the goroutine that sends; Chunks, Transfer and Blocked are proofs. Bench is
--             client/cmd/schema_bench.go, with Counted for its proofs, List the table of
--             client/cmd/schema_list.go, with Order for its proofs
--   Main      main.go: the rounds from the label START, with `New` of pkg/config/config.go and NewServer,
--             Serve and Stop of pkg/server/server.go; Locked is proofs
--
-- An operation that may change a store returns the new store, in `Result` where an error changes
-- nothing and beside the result where it may. A Go map is an association list in an order in which
-- the runtime may walk it, so what is proved for all such lists holds for each order; two reads of
-- one map are modelled in one order, so nothing is claimed about how two walks agree. A call of a
-- store is one step, though the stores take no lock from the test for a schema to the write; of
-- CreateSchema of the memory store both parts are modelled, with the other calls between them
-- (Store.Mem.Overlap). An entry has no `Parent` pointer: a `Node` is an entry with its ancestors. A
-- module has no parent in goyang, but when the expansion starts at the root the root is listed
-- above the modules; only `isState` reads that list, and the root does not set `config`.
--
-- Parameters: Goyang (the methods of yang.Entry), Host (file system, regular expressions, the
-- goyang parser), `annotate` (the annotations of the leafrefs, as `annotate_references` of
-- Schema.References computes them), `path_of` (`e.Path()` of goyang), Libs (badger, the codecs of
-- protobuf and JSON, ttlcache), and with it `open_db` and `make_cache`, which open the database and
-- start the cache. `IsReliable` states what the persistent store relies on: a batch that is flushed
-- is read back, DropPrefix removes the keys with the prefixes and no others, an item has the value
-- of its key, and JSON reads back the source lists that it wrote; `IsCodec` says the same of
-- protobuf. A flush or a drop that fails may have done a part of its work, and what it leaves is a
-- parameter; `IsWritable` says that none fails, `KeepsLast` that a flush that fails has not written
-- the last entry of the batch. Os is what the server and the client call of the operating system
-- and of Go's hashes; `IsHash` says that a hash depends on the bytes only, `IsWorking` describes a
-- disk on which no call on an open file fails: a file has its bytes, the offset at which it is read
-- and written, and whether it is open. Process is what main.go and NewServer call; `IsLocking` says
-- that badger locks the directory of a database until `Close`. Files is what the client calls to
-- walk and to read; `sort.Slice` is the argument of the table, and `IsSortSlice` what its
-- documentation says. A stream is the list of its messages with the error behind them.
--
-- Fuel: buildPath runs on fuel, and BuildPath gives it the height of the entry, since each call
-- goes to an entry below. ToPath of the persistent store gives its loop one more than the number of
-- path elements, since each round takes one or more. ExpandPath of the persistent store ends where
-- the database has nothing further down, and nothing but the database bounds that depth, so its fuel
-- is given. The rounds of `main` are given, since it may serve for ever, and so is the depth
-- to which the bench command goes. The loop that divides a file has as much fuel as the file has
-- bytes, which is enough if the chunk size is not 0; with the size 0 the empty chunk is sent as often
-- as is given, and then the sender is taken to loop for ever. A negative size is not modelled.
--
-- Not modelled: flags, signals, TLS and metrics; the start of badger and its garbage collection;
-- the options of the gRPC server; the client commands but upload, bench and list. A context is
-- never cancelled, and log output is left out. The server that takes an upload is configured with a
-- `schema-server`: where the pointer is nil the handler panics. An error is its kind with the name
-- that it carries, not its text.
pub mod Base
pub mod Sdcpb
pub mod Xpath
pub mod Config
pub mod Yang
pub mod Schema
pub mod Store
pub mod Server
pub mod Client
pub mod Main
