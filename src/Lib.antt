-- ===== src/Lib.antt =====
-- MMDD-Pro watches directories, hands the files that it finds to groups of servers, and uploads
-- them through libraries that it loads. This library models its core.
--
-- The parts and how they interact. main.c loads conf.yaml through utils/conf-yaml-loader.c into the
-- tree of utils/conf.c, from which monitor.c reads the monitor groups and servers.c the servers.
-- For each group a thread (monitor_handle) puts the files that it finds into the group's queue
-- (queue_node_add of utils/encapsulate_queue.c), and a scheduler (sche_handle) takes a node from
-- the queue, puts a copy of it into the queue of one server of each server group (queue_node_copy)
-- and the node back behind the others. The threads of a server (upload_handle) pop the copies, call
-- the analyze library on each, and free them. A node counts its copies; flag files next to the
-- monitored file say which server groups are still to be served.
--
-- Which file models which part:
--   Common        numbers, lists, C strings, signed integers
--   Util/Copy     strlcpy, strlcat (utils/utils.c), on a buffer of bytes
--   Util/Paths    get_pre_path, recursive_make_dir (utils/utils.c), with stat and mkdir as a record
--   Util/Move     move_file (utils/utils.c), on files of bytes
--   Util/Clean    clean_string (utils/utils.c)
--   Util/Split    str_split_func (utils/utils.c)
--   Conf/Node     ConfNode and its lookups (utils/conf.c, utils/conf.h)
--   Conf/Lookup   ConfGetNode, ConfGet and the readings of children (utils/conf.c)
--   Conf/Value    ConfValIsTrue, ConfValIsFalse, ConfGetBool (utils/conf.c)
--   Conf/Set      ConfSet (utils/conf.c)
--   Conf/Remove   ConfRemove (utils/conf.c)
--   Conf/Dump     ConfDump and ConfNodeDump (utils/conf.c)
--   Conf/Number   ConfGetInt, ConfGetDouble, ConfGetFloat (utils/conf.c)
--   Conf/Context  ConfInit, the backup of the root (utils/conf.c)
--   Conf/Include  ConfLoadCompleteIncludePath (utils/conf.c)
--   Yaml          ConfYamlParse (utils/conf-yaml-loader.c); Yaml/Document is the structural reading
--   Config        global_cfg_init, getDBConfig and cfg_init (main.c), in Config/Globals; the table of
--                 servers (servers.c), in Config/Servers; the server groups and the monitor groups
--                 (monitor.c), in Config/ServerGroups and Config/Groups. Config/Names is about
--                 ConfNodeNameCheck (main.c)
--   Monitor       monitor_handle and add_upload_file (monitor.c), add_monitor_dir
--                 (utils/encapsulate_queue.c); Keeps, Laws, Found: the queue; Depth, Ends, Endless:
--                 termination; Buffer: the bytes of the reads, with the loops around them
--   Libraries     the five functions that call a dynamic library (utils/dlapi.c)
--   Database      OpenDB, CloseDB, mysql_query_get_res, mysql_query_free_res (utils/db.c)
--   Log           log_init and log1 (utils/logging.c), UPLOG_LOG and UPLOG_TXT (monitor.c)
--   Threads       monitor_handle_pthread_start and _end (monitor.c), the threads of a server
--                 (servers.c); Joins: the end
--   Compress      do_compress, do_compress_gz, do_compress_archive (utils/compress.c)
--   Program       main (main.c), from the configuration file to the end
--   Naming        file types and suffixes (monitor.c), the compressions' table (utils/compress.c)
--   Watch         the watched directories (utils/encapsulate_queue.c), the servers' table (servers.c)
--   Pipeline      State: the shared state; Server: the choice of a server (monitor.c, servers.c);
--                 Flags and Finish: the files (monitor.c); Schedule: the queues
--                 (utils/encapsulate_queue.c) and the loop over the server groups (monitor.c);
--                 Rounds: sche_handle (monitor.c) and upload_handle (servers.c) as steps on one world
--                 Counting, Dispatch, Memory: a node's counter and its copies
--                 Flags/Laws, Rounds/Outcome, Rounds/Starts: the files;
--                 Serving, Drain: how long a server works on its queue
--                 Shutdown: servers_exit (servers.c), monitor_group_exit (monitor.c) and
--                 newiup_exit (main.c); Signal: signal_func (main.c)
--   Tests         the theorems at concrete inputs
--
-- State and operations. A structure of the source is a record with the fields that the modelled
-- functions read, a function that changes state takes the old state and returns the new one, and a
-- use of freed memory or of NULL is a value of its own (`none`, `fault`, `dangling`). A function
-- that reads the configuration has an `Outcome`: a value, an error return, a call of exit, or
-- undefined behaviour. A thread is its place in the tables, and a join of one that is not running
-- is `none`. Whether fopen succeeds, the system calls of move_file, and what zlib, libarchive,
-- dlopen, dlsym and the MySQL library answer, are parameters. The disk and inotify_add_watch, what
-- read delivers, logging_init, and is_dir with recursive_make_dir for the log directory are
-- parameters there. A thread's work is a sequence of `Action`s; an upload is two, since the others
-- run while the library works. The atomicity of one step is that of the source's spinlocks and
-- atomic counters at the places where the threads share data; a scheduler's round is one step. A
-- round begins with the test of its run signal, unless `past_test` says that the thread had passed the
-- test before the signal came. The deletions of files in Pipeline are taken to succeed where the
-- file is there; move_file has the failure of remove as a parameter. The events of the YAML parser
-- are a list whose end is a failure of the parser; the NO_EVENT behind a stream's end is not in it.
--
-- Bounds and fuel. Paths keep the 1023 bytes that snprintf leaves, counters their 32 bits where the
-- source increases them without a bound. recursive_make_dir and ConfYamlParse recurse on fuel; more
-- than the length of the path, and more than the number of events, is enough. The walks of the
-- monitor thread recurse on fuel too: a path grows at each level, so that 512 levels are enough
-- where no path fills the buffers. move_file and do_compress recurse on fuel; more than the number
-- of a file's bytes is enough.
--
-- Not modelled: yaml/ (libyaml), archive/ (libarchive and lzma) and include/queue.h are other
-- projects' code, and the loader's model takes the parser's events as its input; iconv and uchardet
-- are calls of libraries with no logic around them, and signal_init only calls signal. The functions
-- with other subjects leave out their log lines. Allocation and pthread_create are taken to succeed.
pub mod Common
pub mod Compress
pub mod Conf
pub mod Config
pub mod Database
pub mod Libraries
pub mod Log
pub mod Monitor
pub mod Naming
pub mod Pipeline
pub mod Program
pub mod Tests
pub mod Threads
pub mod Util
pub mod Watch
pub mod Yaml
