-- ===== src/Lib.antt =====
-- The core of the file-system miner of tracker-miners (src/miners/fs): which files are indexed, in
-- which order events on them are processed, and how the results reach the database; and of its
-- extractors (src/tracker-extract) the parser of ID3v2 tags, which reads untrusted files.
--
-- The indexing tree says which directories are configured and which files in them are indexable. The
-- file notifier compares the files of these directories with the store, follows the signals of the
-- monitor, and tells the file-system miner of the changes. The miner coalesces the events on files and
-- keeps them in a priority queue. For each event that it takes out, the SPARQL buffer, which is a task
-- pool, collects updates into a batch, and a flush hands the batch to the database.
--
-- - IndexingTree: src/miners/fs/tracker-indexing-tree.c. `GNode` is the tree with first children and
--   next siblings; `add`, `remove`, `get_root`, `list_roots` and `notify_update` are the functions
--   tracker_indexing_tree_<name>. A change of the node that find_directory_node finds is a traversal
--   in the same order. IndexingTree/Filters has the filters and file_is_indexable.
-- - MinerFs: src/miners/fs/tracker-miner-fs.c. MinerFs has queue_event_coalesce; MinerFs/Queue has
--   miner_fs_queue_event, item_queue_get_next_file, notify_roots_finished and the removal of a
--   directory, over the groups that the priority queue stands for.
-- - FileNotifier: src/miners/fs/tracker-file-notifier.c. FileNotifier has the data of files and the cache
--   of an index root, FileNotifier/Crawl what is done with rows and directory entries, FileNotifier/Roots
--   the index roots with their callbacks, FileNotifier/Monitored the signals of the monitor with
--   those of tracker-monitor.c, FileNotifier/Events what happens to a notifier. The indexing tree, GIO
--   and the module manager answer by a record of functions, which may differ at each event.
--   A handler of its signals that sets the high-water mark is an event of its own, but for the loop of
--   notifier_check_next_root, which is not reentrant: FileNotifier/Reentry.
-- - PriorityQueue: src/miners/fs/tracker-priority-queue.c. The linked list is the list of its links
--   with their addresses, and the segments name links by address, as in the code.
--   PriorityQueue/Removal has what takes elements out, PriorityQueue/Groups what a queue stands for.
-- - TaskPool: src/miners/fs/tracker-task-pool.c, with the index of tasks by file.
-- - SparqlBuffer: src/miners/fs/tracker-sparql-buffer.c, over the task pool. The updates in flight are
--   explicit, and the answer of the database is a call.
-- - Lru: src/miners/fs/tracker-lru.c, the cache of identifiers of the miner, against the list of its
--   elements by recency.
-- - Mp3: src/tracker-extract/tracker-extract-mp3.c, of which the parsers of ID3v2 tags are modelled.
--   Mp3/Tables has the frame names, Mp3/Unsync un_unsync, Mp3/Tags the parsers.
-- - Base has lists, hash tables, integers and the interface to `GFile`; Samples has the locations that
--   the examples use.
--
-- Bounds: the binary search has as much fuel as there are segments, and the loop that clears filters
-- one deletion more than there are filters; the theorems on them show that this is enough. Other
-- loops follow lists or trees. The loops over a tag have as much fuel as the tag has bytes, and
-- parse_id3v2 as the buffer has. The numbers of a guint wrap where the task pool counts down.
--
-- Not modelled: reference counts, GObject properties and logging; the backends of the monitor, whose
-- state is mostly that of GLib and of the kernel; the loop in which the miner processes the events that
-- it takes out, with what the miner for files does for them; the other extractors, which call other
-- libraries, and what the MP3 extractor reads out of frames and audio; the command line. What GLib and
-- GIO do with a file, a pattern or a URI is a parameter with documented laws.
mod Base
mod Samples
pub mod TaskPool
pub mod SparqlBuffer
pub mod PriorityQueue
pub mod IndexingTree
pub mod MinerFs
pub mod Lru
pub mod FileNotifier
pub mod Mp3
