-- ===== src/Lib.antt =====
-- ReproVM runs the tasks of a manifest in the order of their dependencies and caches their results
-- in a store of files named by the SHA-256 hash of their content. This library models its C code.
--
-- The parts, and how they meet:
-- - Prelude: names shared by all files, lists and texts on the native numbers. It models no code.
-- - Util (util.c): strings, `split_csv_array`, `hex_encode`, `ensure_dir_recursive`. `mkdir` is a
--   parameter there. Util/Trim, Util/Csv, Util/Hex and Util/Dirs are about one of them each.
-- - Sha (the SHA-256 functions of cas.c): words are numbers below 2^32, the context is a record, and
--   `sha256` is init, update and final. Sha/Fips describes the algorithm again, after FIPS 180-4;
--   Sha/Stream, Sha/Padding and Sha/Standard compare the two.
-- - Cas (cas.c, `file_exists` and `copy_file` of util.c): the store on a disk of files and
--   directories, which each operation takes and returns. The record `Os` says which system calls
--   fail, how many bytes of a write reach the file, and whether `fwrite` or only `fclose` misses the
--   rest; the code looks at `fwrite` only. Two paths are the same file if they are the same text.
--   Uses Util and Sha.
-- - Task (task.h, task.c): tasks, `find_task`, the links between them, `collect_needed_tasks` and
--   `topo_sort`. A `Task *` is the position in the list. Task/Link, Task/Collect and Task/Sort.
-- - Manifest (task.c): `parse_manifest` on the bytes of the file. It ends with Task's links.
-- - CacheKey (task.c): the text that `compute_task_hash` hashes, and the sort of the hashes.
-- - Exec (task.c, main.c): the task hash, the records of results, `execute_task` on the store of
--   Cas, and the loop of `main` over the sorted tasks. `system` is a parameter. Exec/Record,
--   Exec/Cached: a record that is written is read again.
-- - Main (main.c): the store, the manifest, the plan, the order and the loop, one after the other.
--   Main/Whole says what all of them do together.
-- - Pool (parallel_executor.c): the shared state of the workers, with one constructor of `Step` for
--   each critical section, the wait on the condition variable and the main thread's broadcast
--   included; a worker that waits needs a broadcast, and wakes up by nothing else. A worker that
--   fails in `execute_task` keeps the mutex, which ends all steps. The interleavings are the
--   sequences of steps. Pool/View reads a pool as a state of `topo_sort`, Pool/Inv is what every
--   step keeps, Pool/Start the first state;
--   Pool/Safety, Pool/Progress, Pool/Bound and Pool/Deadlock are about all that can follow it.
-- - Lockfile (lockfile.c): processes that lock one path, with one constructor of `Step` for each
--   system call. `flock` locks an open file, not its name, so the files are numbered.
-- - Metrics (metrics.c): the counters and timings as a state, with one `Call` for each operation.
--   `double` and its arithmetic are a parameter. Metrics/Counts, Metrics/Outcomes and
--   Metrics/Timings.
-- - Health (health_check.c): the checks over the record `Sys`, which says what the system answers.
--   Health/Objects and Health/Overall.
-- - Backup (backup.c): the list, the cleanup and the commands, over the record `World` for the
--   system. Backup/Cleanup is about the backups that are left.
-- - RateLimiter (rate_limiter.c), Errors (error_handling.c), Security (security.c), Config
--   (config.c), Cli (cli.c): the token bucket, the retry loop, the checks of inputs, the
--   configuration, its saved file (Config/Save) and the command line. `getopt_long` is a parameter of
--   Cli.
-- - Tests: runs on concrete inputs, and each theorem applied to one.
--
-- Bounds and fuel:
-- - `int` fields that count are natural numbers or the integers ℤ of Prelude/Int; words of SHA-256
--   and the numbers of the rate limiter are cut to 32 and 64 bits where C cuts them.
-- - `topo_sort` runs its loop for as many rounds as the subset has tasks (Task/Sort/Order): each
--   round takes a task off the queue. `collect_needed_tasks` takes a bound for the depth of its
--   recursion, which the rank of the requested tasks limits on a manifest without cycles
--   (Task/Collect/Plan). The array that it fills has room for 16 tasks: with one more, `realloc` moves
--   it away from the callers, and the model has no result. The waiting loops have one round for each
--   millisecond and two more (RateLimiter/Waiting), since a round waits 100 or 500 of them; they have
--   no result once the `int` that counts the milliseconds overflows.
-- - The fixed buffers of paths, lines and fields cut what is too long, as `snprintf`, `strncpy` and
--   `fgets` do. The buffers of 4096 bytes that `strcat` fills unchecked, and the 64 outputs that
--   a record may list, are not cut.
-- - `fopen` on a directory for reading is taken to fail. The file that `config_save_to_file` writes is
--   taken to be complete: C looks at none of its writes.
--
-- Not modelled: printing and logging, the display of the graph, signals, threads but for the
-- critical sections of the pool, the remote store, compression, audit, the progress display, the
-- reports of metrics and health checks, and the scripts, packages and services around the program.
pub mod Prelude
pub mod Backup
pub mod CacheKey
pub mod Cas
pub mod Cli
pub mod Config
pub mod Errors
pub mod Exec
pub mod Health
pub mod Lockfile
pub mod Main
pub mod Manifest
pub mod Metrics
pub mod Pool
pub mod RateLimiter
pub mod Security
pub mod Sha
pub mod Task
pub mod Util
pub mod Tests
