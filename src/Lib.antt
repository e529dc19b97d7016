-- ===== src/Lib.antt =====
-- Survol: the analyser of strace and ltrace logs (survol/scripts/dockit.py), the parser of demangled
-- symbols (survol/lib_symbol.py), and URLs and modules of entity types (survol/lib_util.py).
--
-- The log analyser turns each line of a log into a core (`BatchLetCore`), whose arguments
-- `ParseCallArguments` reads. `BatchLetFactory` makes a call object of the core by the class of its
-- function, whose constructor also records what the call does to the processes and files: a call that the
-- tracer printed in two halves waits in `UnfinishedBatches` until its resumed half arrives, and the
-- two cores are merged. The object goes to the flow of its process (`BatchFlow`), which counts
-- repeated calls as it grows, and which is then shortened: the halves that stand before their call go
-- (`FilterMatchedBatches`), frequent pairs become sequences (`ClusterizeBigrams`), and calls with the
-- same arguments become one sequence (`ClusterizeBatchesByArguments`).
--
-- The files:
--   Base            names of the libraries passed on; tests, lists, texts, dictionaries.
--   CallArguments   ParseCallArguments. The variables of its loop are the record Scan. The loop has
--                   as many rounds as the text has characters, since each one reads a character; the
--                   depth of nested lists is a fuel, and the results hold for every depth from 1 on.
--   Batch           BatchLetCore, BatchLetBase, BatchLetSequence. The cores are shared and mutated,
--                   so they live in a store, and a reference to one is its address.
--   Unfinished      UnfinishedBatches.PushBatch and MergePopBatch; its `raise` statements are the
--                   exceptions of Batch/Failure, and leave what was mutated before them.
--   Factory         BatchLetFactory, with the table of classes (G_batchModels) as an argument. The
--                   constructors of the classes read the core and change the rest of the globals, which
--                   is a type of its own. feed_all is the factory on parsed lines in their order.
--                   A line that is no call hands it the core of the call before once more, as the source
--                   does; an exception of the factory ends the log.
--   World           The rest of the globals: CIM_Process, CIM_DataFile and FileAccess with their tables
--                   and the cache of accesses, the names of descriptors, the environment. An object is
--                   named by its key. World/Actions has the actions on them, which keep what they wrote
--                   when they raise; World/Paths ToAbsPath, STraceStreamToPathname and PathCategory;
--                   World/Objects the tables and the tree of processes; World/Accesses the accesses. The
--                   loop of ToAbsPath has as many rounds as the path has parts, since the distance of
--                   its two counters falls by one in each. World/Keeps and World/Sound are invariants.
--   SystemCalls     The classes derived from BatchLetBase, their table, and SystemCalls/Log, where each
--                   line enters its process. SystemCalls/Sound and
--                   SystemCalls/Tame are what every constructor keeps and raises.
--   LogReading      CreateFlowsFromGenericLinuxLog, which puts the lines of the stream together, parses
--                   each with ParseLine and hands it to the factory, and the calls of SendBatch in
--                   CreateMapFlowFromStream. The stream is a list of lines. The generator goes round once
--                   more than the stream has lines: each round but the last one takes a line.
--   Urls            survol/lib_util.py: AnyUriModed, ConcatenateCgi and GetModeFromUrl, with the pattern
--                   of re.match as a recursion over the text that prefers the last place.
--   EntityModules   survol/lib_util.py: GetEntityModule and HierarchicalFunctionSearch with their caches;
--                   importlib, with any exception, and getattr are parameters. The loop has one round more
--                   than the type has characters, since lastDot gets smaller in each; a search that
--                   needs more rounds would give none, which is not the result of one that finds nothing.
--   Flow            BatchFlow: AddBatch, SendBatch, FilterMatchedBatches; Flow/Arguments is
--                   ClusterizeBatchesByArguments. The fuel of a loop is the length of the list at its
--                   start: each round moves the index on, and the list does not grow.
--   Flow/Bigrams    StatisticsBigrams, ClusterizeBigrams and FactorizeOneFlow, whose loop has the length of
--                   the flow and one more as fuel.
--   Line            InitAfterPid and SetFunction, which read a line behind its process id. Lists of
--                   arguments may nest as deep as the text is long.
--   Buffers         BufferConcatenator, with the table of scanners (BufferScanners) as an argument, from
--                   the decoded fragments on.
--   Symbols         find_closing_delimiter, top_level_split, FindArgumentsStart, SymToArgs. The level of
--                   brackets is an integer, since closing brackets take it below zero. The white space
--                   that strip() removes is that of ASCII.
--
-- Parameters, which stand for code that is not in the repository: the `repr` of a Python text,
-- `datetime.strptime` (parse_time), which fails on a text that is no time stamp, and the record
-- Library of World: `repr`, the codec of escapes, `socket.gethostbyaddr`, and the table of scanners.
--
-- The logs are replayed on another machine than the one that they come from: the attributes that
-- psutil, /proc and os.stat give are not modelled, nor are the updates that are sent to a server.
--
-- Not modelled: an interrupt from the keyboard, how strace and ltrace are started, the summaries and
-- Docker files, what is printed, and the rest of Survol (CGI scripts, RDF graphs, WBEM and WMI
-- clients), which mostly calls other systems.
pub mod Base
pub mod Batch
pub mod Unfinished
pub mod Urls
pub mod EntityModules
pub mod Factory
pub mod Flow
pub mod CallArguments
pub mod Symbols
pub mod World
pub mod SystemCalls
pub mod Line
pub mod Buffers
pub mod LogReading
