-- ===== src/Lib.antt =====
-- squashfs-tools: mksquashfs, which writes a filesystem image, and unsquashfs, which lists and
-- unpacks one.
--
-- mksquashfs scans the sources into a tree (squashfs-tools/mksquashfs.c), drops, moves and marks
-- its entries by the rules of the action language (squashfs-tools/action.c), and sorts each
-- directory. Threads that read, compress and write pass buffers to each other through the queues
-- and caches of squashfs-tools/caches-queues-lists.c, with the checksums that the search for
-- duplicates compares. The metadata follows: directory listings, inodes and the table of ids.
-- unsquashfs (squashfs-tools/unsquashfs.c, unsquash-1.c to unsquash-4.c) reads these back.
--
-- The parts that are modelled, with a file or a folder for each:
--
-- Queue has struct queue and queue_init, queue_put, queue_get, queue_empty, queue_flush and
-- dump_queue of squashfs-tools/caches-queues-lists.c. A function is one critical section; a caller
-- that has to wait gets none and tries again. Queue/Fifo is the abstract queue, Queue/Refine
-- compares the two, and in Queue/Schedule the turns of the threads are a list.
-- SeqQueue has the seq_queue functions of the same file, with the hash chains as lists; in
-- SeqQueue/Delivery the turns are again a list.
-- Cache has the caches of the same file: cache_init, cache_lookup, cache_get, cache_get_nohash,
-- cache_hash, cache_block_put and the functions for locked buffers. The address of a buffer is a
-- number. Cache/Valid is the invariant, Cache/Chains is about the hash table, Cache/Steps and
-- Cache/Reuse go through the operations, Cache/Get is about the buffers handed out, Cache/Lookup
-- about those found, and in Cache/Turns threads take turns. The code follows the links of a buffer
-- that it takes out of the hash table even if it is in no chain; what that makes of the table is a
-- parameter, StaleLinks.
-- Action is about squashfs-tools/action.c. Action/Lexer has get_token and peek_token,
-- Action/Parser the expression parser, Action/Dump dump_parse_tree, Action/Log the log buffer,
-- Action/Eval eval_expr and eval_expr_log, Action/Table the two tables, Action/Specs parse_action
-- and Action/Specs/Select the loops that choose the actions for a file. Input is what stands
-- behind cur_ptr. The functions behind the pointers of the two tables are parameters.
-- Directory has add_dir and write_dir of squashfs-tools/mksquashfs.c in Directory/Write,
-- squashfs_opendir_4 of squashfs-tools/unsquash-4.c and squashfs_readdir of
-- squashfs-tools/unsquashfs.c in Directory/Read, the byte order of squashfs-tools/swap.c in
-- Directory/Bytes. Pointers into the buffer are offsets, and a read past the end of the table is a
-- result of its own. Directory/Table has the table of directories, the loops of write_dir and
-- write_directories that store it, and read_directory_table and squashfs_opendir_4, which read it:
-- Table/Marks, Table/Blocks and Table/Put follow the writer, Table/Listed and Table/Index the
-- reader.
-- Metadata has mangle2, get_inode and write_inodes of squashfs-tools/mksquashfs.c, which put the
-- inodes in compressed blocks, and read_block, read_inode_table, add_entry and lookup_entry of
-- squashfs-tools/unsquashfs.c, which load them. The image is a list of bytes, compressor and
-- decompressor are parameters. Metadata/Written, Metadata/Finished and Metadata/Loaded follow the
-- two sides, Metadata/Placed the references, and Metadata/References joins them.
-- Inode has the structures of squashfs-tools/squashfs_fs.h in Inode/Header, create_inode of
-- squashfs-tools/mksquashfs.c in Inode/Create and read_inode_4 of squashfs-tools/unsquash-4.c in
-- Inode/Read. Inode/Cases and Inode/Files go through the types, Inode/RoundTrip joins writer and
-- reader of one inode, Inode/Image those of a whole table, with Metadata between them, and
-- Inode/Device has the device that create_inode of squashfs-tools/unsquashfs.c makes.
-- Checksum has get_checksum, get_checksum_disk and all_zero of squashfs-tools/mksquashfs.c,
-- checksum_sparse of squashfs-tools/process_fragments.c. The cache and the disk are parameters.
-- Ids has get_id, create_id, get_uid, get_guid and resolve_child_ugid of
-- squashfs-tools/mksquashfs.c. A pointer to an entry is its index in the table.
-- Priority has generate_file_priorities, add_priority_list, get_priority and sort_files_and_write
-- of squashfs-tools/sort.c, a priority as the index in the table: Priority/Chains is about the
-- lists, Priority/Once about the order of writing.
-- Sorting has sort_directory of squashfs-tools/mksquashfs.c, a list for the linked list:
-- Sorting/Merge is about one merge, Sorting/Pass and Sorting/Runs about one round, Sorting/Sorted
-- about the sort.
-- Paths has get_component, add_path and matches of squashfs-tools/unsquashfs.c, whose way down to
-- a file is that of dir_scan, and add_exclude, excluded_match and excluded of
-- squashfs-tools/mksquashfs.c, with old_add_exclude, old_excluded and the way of dir_scan1.
-- regcomp, regexec, fnmatch and lstat are parameters; an entry without `paths` is a leaf of the
-- tree. Paths/Parts is about the components of a target, Paths/Reach and Paths/Added about the
-- tree, Paths/Steps about one name, Paths/Extracted and Paths/Excludes about the two programs,
-- Paths/Inodes about the excludes by device and inode, and Paths/Files about the files of targets
-- that process_extract_files and process_exclude_file read.
-- Numbers has parse_numberll, parse_number and multiply_overflowll of squashfs-tools/mksquashfs.c,
-- with strtoll as a parameter.
--
-- Common has the shared names: lists over native numbers, Boolean tests, case splits, sums of
-- numbers without common bits.
--
-- Machine integers are natural numbers with the wrap-around written out where the code can reach
-- it, but for the positions in the table of inodes: put_inode and block_ptr hold for a table below
-- 2^31 bytes, as inode_bytes is an unsigned int and the reader's bytes an int; malloc failures
-- that exit are results where a function has other results, and are left out elsewhere. Fuel: the
-- expression parser runs on 2 n + 2 steps for n bytes of input, as each call consumes a byte or
-- hands on to one that does; the reader of a listing on one step more than the listing has bytes,
-- as each group has a header; the sort on as many rounds as there are entries, as the stride
-- doubles; the loops over the caches of inodes and of listings on a step for each byte in them,
-- and the readers of their tables on one step more than their bytes, as every block has some;
-- add_path on one more than the target's characters, as a component that is not the last one takes
-- some; the reader of a file of targets on one more than the file's, as every line takes some.
-- Other loops are recursions on their data.
--
-- Not modelled: compression, file input and output, progress bars, signals and messages, since
-- they only call libraries; the kernel patches under kernel and kernel-2.4, which are other
-- programs' sources; and the reading of sort files, pseudo files, extended attributes, appending
-- and the older disk formats.
pub mod Action
pub mod Cache
pub mod Checksum
pub mod Common
pub mod Directory
pub mod Ids
pub mod Inode
pub mod Metadata
pub mod Numbers
pub mod Paths
pub mod Priority
pub mod Queue
pub mod SeqQueue
pub mod Sorting
