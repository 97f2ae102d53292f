-- ===== src/Lib.antt =====
-- want is a build system. A module's configuration names sets of paths and expressions; the
-- compiler turns them into computation graphs, and a job system runs the graphs, each node as a
-- task of an operation that is found by name. This development models the parts that decide what is
-- built from what: the algebra of path sets, the compiler's expressions and their lowering to
-- graphs, the graphs, and the jobs that run them, in memory and in the tables of the database.
--
-- Parts, and the files that model them (paths from the repository's root):
--
-- - Common: Go strings as lists of bytes (Text, Order), numbers and lists, and result types:
--   Common.Result for a value or an error, Common.Outcome for code that may panic. Strings has the
--   functions of Go's strings and path, Hex the digits of `%x`.
-- - WantCfg (src/wantcfg/pathset.go; Print: its String; Exprs: expr.go, statement.go): the path
--   sets, expressions and statements of configuration files. A field that is nil is `none`,
--   `no_set`, `absent` or the constructor of a type of its own.
-- - StringSets (src/internal/stringsets): Sets has the set types and `Contains`; Methods has the
--   three-valued methods `intersects` and `superset`, one definition for each Go method, with
--   `none` for `maybe.Nothing`; Simplify has `simplify`, `dist`, `sumOfMinterms`, `Simplify`,
--   `Equals`, `Intersects`, `Superset` and `Subset`; Combine, Prefixes, Bounding, PathSets and
--   Rewrites have the functions of set.go and util.go, Print the String methods. Answers, Meaning,
--   Adequacy, Termination and BoundingUnion prove what they do.
-- - WantC (src/internal/wantc). Exprs is expr.go: expressions, `Key`, `Needs`; Keys is about the
--   keys. Graph is graph.go and graph_glfs.go, whose GraphBuilder is a state with the nodes and the
--   index of keys; Denote says what an expression and a node stand for, and Merging, Sound, Built
--   and Whole show that the builder keeps it, Names that its inputs can be named. Vfs is vfs.go,
--   with the path of a node in place of its pointer and `parent`; Lookups is about it. Compile is
--   the rest of expr.go and merge, placeAt, pickExpr and filterExpr; Lower is query, selectGround
--   and `replaceSelections`; Lowered is about both. Stmts is stmt.go, expr_file.go, the loading of
--   their files, `checkStmts` and `lowerSelections`, with Loaded; Targets is `makeTargets`, with
--   Ordered, and Plans is `PostPlan` and `GetPlan`. Cycles is `detectCycles`, with Silent; Paths
--   and Queries have the functions on paths and `SetFromQuery`. Settings has the parameters of the
--   theorems.
-- - WantJob (src/wantjob/jobs.go, tasks.go): results, tasks, and the executors that route a task.
--   Mem is mem.go, the jobs in memory.
-- - JobSystem (src/want/job.go): Jobs has the jobs and `spawn` over the tables of WantDb, Once the
--   `onceGroup`, whose concurrent calls are a step relation that Shared is about, Process the
--   function `process` around it, Recorded what it leaves behind, Roots the calls on root jobs and
--   on children by their index.
-- - Stores (src/internal/stores): Getters has Union, Fork and the Exists functions, Cache the LRU
--   cache; Contents and Cached are about them.
-- - StreamMux (src/internal/streammux/streammux.go): Frames has what is written, Mux the streams;
--   whether the mutex is held is an argument of what takes it.
-- - WantDag (src/internal/wantdag): Nodes and Inputs (node.go), Builder (dag.go), Wire and
--   RoundTrip (nodelist_rw.go), Json (its lines of JSON), Exec and Serial (wantdag.go,
--   serialexec.go), and Parallel (parallelexec.go), whose goroutines are a step relation; Counts,
--   Schedules, Initial, AnyOrder and Race are about its runs.
-- - WantDb (src/internal/wantdb/store.go, jobs.go, pull.go, artifact.go and
--   src/internal/dbutil/dbutil.go): Tables and JobTables have the tables, with foreign keys
--   enforced; Blobs, DbStore, TxStore and Copies have the stores, Jobs, JobCreate and Inspect the
--   jobs, Artifacts the artifacts. Links, Counted, Histories, Reads and Deletes are about the
--   stores, JobResults and JobCache about the jobs. Every function takes the tables and returns the
--   new ones with its result or error, and a transaction that fails takes the old ones.
-- - Examples: each theorem at a concrete input, and tests.
--
-- The sets of StringSets are what WantCfg's path sets are turned into; WantC's VFS files its
-- entries under their bounding prefixes, and finds them again by what intersects a query. WantC
-- turns WantCfg's expressions into its own and those into nodes of WantDag. WantDag's execution
-- hands tasks to a job system, which it takes as a `Backend`, and reads the results that WantJob
-- defines; JobSystem keeps those results in the tables of WantDb, whose stores hold the blobs that
-- they refer to.
--
-- Bounds and fuel. The methods of a set call one another on smaller sets, and `And.dist` builds
-- sets that are no parts of its argument: these recursions run on a number of levels, which
-- Adequacy and Termination show to be enough. `BoundingPrefix` simplifies at each level;
-- BoundingUnion shows that it returns for unions of paths and prefixes. `mergeLayers` calls itself
-- on fewer layers and runs on fuel, one more than the number of layers, which Merging shows to be
-- enough. `replaceSelections` and `dfs` follow selections to the entries of the VFS and back, which
-- need not end when entries depend on each other; they run on fuel and answer `out_of_fuel` without
-- it, and the theorems about them are of runs that end. Node ids, offsets and the lengths of frames
-- are `uint32` and wrap, the counts of Parallel are 32 bits of an `int32`. The keys of tables and
-- the indices of jobs are unbounded; a reference count may fall below zero. `%q` escapes the bytes
-- of ASCII as Go does and takes the others to be printable.
--
-- Not modelled: the contents of stores and the file trees of the external library glfs, which are
-- the parameters `sync`, `Backend`, `Ref` and the fields of the records of WantC; the hash function
-- of keys, a parameter; the table of the LRU cache, a parameter; encoding/json, a record of
-- operations and of what they give back for valid UTF-8. Of the compiler, the walk of the source
-- tree, Jsonnet, the discovery of modules and SyncPlan; of the job system, `Delete`, the queue with
-- its workers, Shutdown and the logs; of the multiplexer, Accept, the channel `closed` of a stream
-- and the interleaving of readers. The operations, processes, network and command line are input
-- and output or calls of other libraries.
pub mod Common
pub mod WantCfg
pub mod StringSets
pub mod WantJob
pub mod WantDag
pub mod Stores
pub mod WantDb
pub mod StreamMux
pub mod WantC
pub mod JobSystem
pub mod Examples
