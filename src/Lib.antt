-- ===== src/Lib.antt =====
-- squashfs-tools: mksquashfs builds a compressed read-only filesystem image from files, and
-- unsquashfs takes one apart. This library models parts of both, each function by one definition that
-- follows its statements, and proves what they promise one another.
--
-- The parts, and how they interact. In mksquashfs, a reader thread, compressor threads (deflators),
-- fragment threads and a writer pass buffers along. The buffers come from caches, and move on queues;
-- a sequence queue puts them back in order for the main thread, which writes them. In unsquashfs, the
-- main thread asks caches for blocks of the image; what is missing goes on a queue to a reader and on to
-- inflators, and the files are written by a writer thread. mksquashfs packs inodes and directories into
-- compressed blocks of metadata, from which unsquashfs reads them back, by the words of the format on
-- disk. mksquashfs also reads tar archives and action files, which say what to do with which files.
--
-- - Queue: struct queue and queue_init, queue_put, queue_get, queue_empty, queue_flush, dump_queue of
--   squashfs-tools/caches-queues-lists.c; unsquashfs.c has copies of four of them. Queue.Inv has the
--   invariant, Queue.Refine the abstract list of pointers, Queue.Trace the interleavings of calls, and
--   Queue.Monitor the threads that sleep on its two conditions.
-- - SeqQueue: struct seq_queue, seq_queue_init, _put, _get, _flush and dump_seq_queue of the same file,
--   with SeqQueue.Inv, SeqQueue.Order and SeqQueue.Accounts for its invariant and its runs.
-- - Hash and FreeList: the macros CALCULATE_HASH, INSERT_HASH_TABLE, REMOVE_HASH_TABLE, INSERT_LIST and
--   REMOVE_LIST of squashfs-tools/caches-queues-lists.h, on links in memory. An entry's address is a
--   number, a pointer an Option (Pointer), and memory a function that is updated, so that aliases are
--   seen. Hash.Contents and FreeList.Ring say which list of entries the links stand for.
-- - Cache: struct cache and cache_init, _lookup, _get, _get_nohash, _get_nowait, _lookup_nowait, _hash,
--   _block_put, _wait_unlock, _unlock and dump_cache of caches-queues-lists.c. The theorems are about
--   caches that do not shrink (noshrink_lookup); both kinds are modelled.
-- - ReadCache: the cache of squashfs-tools/unsquashfs.c, from insert_hash_table to dump_cache.
-- - Directory: check_name and check_directory of squashfs-tools/unsquash-1234.c, and in Directory.Sort
--   sort_directory of unsquash-12.c, whose twin in mksquashfs.c is the same.
-- - Tar: read_octal, read_binary, read_number, read_decimal, checksum_matches and all_zero of
--   squashfs-tools/tar.c, and read_long_string on a file that ends but has no read errors.
-- - Action: get_token, parse_test, get_atom, parse_expr, eval_expr and eval_expr_log of
--   squashfs-tools/action.c. The tests that expressions name are a parameter, the list of test_table.
-- - Sort: add_priority_list, ADD_ENTRY, get_priority and the loops of sort_files_and_write of
--   squashfs-tools/sort.c; the writing of each file is left out.
-- - Format: the flags, size words, inode references and tables of squashfs-tools/squashfs_fs.h, and in
--   Format.Fields the fields of its structures in bytes, as squashfs_swap.h writes and reads them.
-- - Metadata: the blocks of the tables of inodes and directories: mangle, get_inode, write_inodes and
--   write_directories of squashfs-tools/mksquashfs.c, and in Metadata.Reader read_fs_bytes, read_block,
--   get_metadata and read_metadata of unsquashfs.c. The compressor is a parameter: what is asked of it
--   is IsLossless of Metadata.Blocks, which Metadata.RunLength shows of one. Metadata.Roundtrip has the
--   way from a writer to a reader.
-- - DirTable: scan7_init_dir, add_dir and write_dir of mksquashfs.c, and in DirTable.Opendir
--   squashfs_opendir of unsquash-4.c, on what Metadata gives (ByteReader of Metadata.ByteReader).
-- - Inode: create_inode of mksquashfs.c, and in Inode.ReadInode read_inode of unsquash-4.c.
-- - Tables: generic_write_table, write_id_table and write_fragment_table of mksquashfs.c, in Tables.Ids
--   get_id, create_id, get_uid and get_guid, and in Tables.Load read_id_table, read_fragment_table and
--   parse_exports_table of unsquash-4.c. Tables.Super has the superblock with read_super_4, and
--   Tables.Filesystem the image as a whole: write_filesystem_tables and read_filesystem_tables.
-- - Paths: which files unsquashfs takes: get_component, add_path, extract_matches and exclude_matches
--   of unsquashfs.c, and how pre_scan calls these. The matching of names is a parameter, for it is strcmp
--   or one of fnmatch and regexec of the C library.
-- - Swap: the byte order of squashfs-tools/swap.c.
-- - Common and Pointer: tests, lists, sets, memory, signed integers and pointers for all of them.
--
-- State and calls. Each function under a mutex is one step from a state to a state. A call that may
-- sleep returns `none`, or a flag or an outcome that says so, and the state that it leaves; the loop
-- round pthread_cond_wait is the repetition of that step. A signal or a broadcast is a flag of the
-- result. Memory always suffices: the program exits where malloc fails.
--
-- Bounds and fuel. Unsigned words keep their `% 2 ^ w`; the use count of a mksquashfs buffer is a char
-- and wraps at 256. Overflow of a signed int is undefined in C and not modelled, but the checks of
-- add_overflow, shift_overflow and multiply_overflow are. A search along a hash chain has fuel for the
-- buffers that the container counts; the merge sort has a round for each entry, the blocks of a name a
-- round for each byte, the loops over blocks of metadata one for each block that the cache can hold,
-- read_metadata and squashfs_opendir one for each byte, add_path one for each character, and the parser
-- two for each character and two more. For each of these the theorems give the result, so the fuel is
-- enough.
--
-- Not modelled: the compressors and their libraries, input and output, the scan of the source
-- directories, the data and fragments of files, images of the versions before 4, extended attributes,
-- pseudo files, the parsing of sort files, the progress bar, options, and the parsing and running of
-- actions beyond their expressions.
pub mod Common
pub mod Paths
pub mod Pointer
pub mod Hash
pub mod FreeList
pub mod Queue
pub mod SeqQueue
pub mod Cache
pub mod Swap
pub mod Format
pub mod Inode
pub mod DirTable
pub mod Metadata
pub mod Directory
pub mod Tables
pub mod Tar
pub mod ReadCache
pub mod Action
pub mod Sort
