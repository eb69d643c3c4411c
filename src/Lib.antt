-- ===== src/Lib.antt =====
-- The playback of MySQL query logs, as percona_playback implements it.
--
-- A run reads a log, hands its queries to threads, one for a connection or a fixed pool, runs
-- them against a database client and reports what was executed.
--
-- Parts, and where they are modelled:
-- - Text, Tokenize and OrderedMap: the string functions of percona_playback/query_log/query_log.cc
--   (Trim, Number and Find hold what the proofs need of them) and strtoull, over lists of bytes;
--   percona_playback/tokenize.h; and std::map, whose keys have an order as an instance argument.
-- - QueryLog: percona_playback/query_log. Readline is readline; Data is QueryLogData (the parse
--   members, is_quit, getQuery); Scan is parse_time and the reading loop of getEntries; Order is
--   its second half, the adjustment of the start times and the stable sort; Entries is
--   QueryLogEntries (popEntry, setShutdownOnLastQueryOfConn); Execute is QueryLogData::execute;
--   Plugin is QueryLogPlugin (processOptions, run, LogReaderThread), Plugin/Pipeline composes the
--   log with the dispatcher and its threads, and Replay runs what they execute, QueryLogEntry on the
--   DBThread of its connection, with the reports that all threads share. Plugin/Delays is the report
--   plugin of the same file. A string_ref is an address and its bytes, a
--   position is an Option where the code has npos, and a time is a count of nanoseconds since the
--   epoch.
-- - GeneralLog: percona_playback/general_log (getEntries of ParseGeneralLog, GeneralLogEntry and
--   its setShutdownOnLastQueryOfConn), over the lines that getline gives; Plugin is
--   GeneralLogPlugin.
-- - Result and Thread: percona_playback/query_result.h, query_entry.h, db_thread.h and
--   db_thread.cc, over any client (a record of its virtual functions).
-- - Client: percona_playback/mysql_client over records of the functions of libmysqlclient (connect,
--   disconnect and execute_query in Mysql, run and test_connect in Mysql/Threads, processOptions in
--   Mysql/Options), and percona_playback/null_dbclient.
-- - Table and Dispatch: percona_playback/thread_per_connection as a step relation over every
--   interleaving of the dispatcher and its threads, with the specification that it refines (one
--   queue for each connection) in PerConnection/Refinement, and percona_playback/thread_pool, which
--   QueryLog/Plugin/Pooled composes with the log.
-- - Report: percona_playback/simple_report, full_report and error_report, whose counters are
--   64-bit words that wrap around.
-- - Registry: percona_playback/plugin.h and plugin.cc. A plugin object is its address, which carries
--   the flag `active`.
-- - CommandLine and Playback: what the code asks of a parsed command line, and the entries of an
--   options_description; percona_playback/percona_playback.cc (percona_playback_argv,
--   percona_playback_run, percona_playback_run_all) and bin/percona_playback.cc. Playback/Declared
--   is the declaration of the options, with the getProgramOptions of every plugin, Playback/Stages
--   the parts of percona_playback_argv where it returns 0, Playback/Once a run on a command line
--   that boost::program_options has parsed, Playback/Help what help and version print, and
--   Playback/Program begins with the loading of the plugins.
-- - Prelude: the shared names, tests and list lemmas. Tests: concrete inputs.
--
-- The two reading loops run on fuel: the outer one on a number of rounds above the length of the
-- log, the inner one on a number above it too; each round but the last takes a nonempty line, so
-- neither runs out, which the theorems on scan_log include. get_query runs on such a number for
-- its text in the same way, tokenize on one above the length of its string, the loop that reads
-- stdin on one above the number of its bytes, and pop_all on one more than the number of entries.
-- The depth of execute_query of the MySQL client is how deep its calls are nested through the init
-- query; with no init query one is enough.
--
-- The parameters of the model: strtod times a million, sscanf with the one format of the code,
-- mktime, the checksum of the thread pool, the clocks, libmysqlclient, usleep, the regular
-- expressions and which texts are one, the functions of a database client, the dispatcher where
-- a plugin runs (which may not return), the names in the plugin objects that help prints, the
-- files and stdin, the dynamic linker, and boost::program_options. Messages on stdout and
-- stderr are left out, but for the lines of the error report, the numbers of the other reports
-- and the error messages of the MySQL client. Not modelled: the parsing of the command line,
-- and the words around the names and numbers in the help and the reports, since they only print
-- or belong to other libraries.
pub mod Prelude
pub mod Text
pub mod QueryLog
pub mod Table
pub mod CommandLine
pub mod OrderedMap
pub mod Tokenize
pub mod Registry
pub mod Result
pub mod Thread
pub mod Client
pub mod GeneralLog
pub mod Dispatch
pub mod Report
pub mod Playback
pub mod Tests
