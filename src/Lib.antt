-- ===== src/Lib.antt =====
-- group: a key-value store server (kvstore/) and the Pintos teaching kernel (pintos/), two C programs.
--
-- The key-value store (kvstore/src/server) answers get, put and delete requests. A server (kvserver.c) has
-- a cache (kvcache.c, an array of second-chance sets, kvcacheset.c) in front of a store on disk
-- (kvstore.c, one file for each entry). Puts go through to both.
--
--   Kvstore/Text       C strings as lists of bytes, strlen, strcmp; hash of kvstore.c
--   Kvstore/Outcome    the return codes of kvconstants.h; a fault is a use of a null or dangling pointer,
--                      or a loop whose fuel runs out
--   Kvstore/Uthash     what kvcacheset.c relies on of the vendored uthash.h, as an interface with laws
--   Kvstore/CacheSet   kvcacheset.c: a set is the list of its elements, each with its address, and a table
--                      from keys to addresses; init, get, put (with the eviction loop), delete, refbit, clear.
--                      Bindings, Eviction, Invariant, Room, Put and Count prove it.
--   Kvstore/Cache      kvcache.c: init, get, put, delete, get_lock, clear_loop; Laws proves it
--   Kvstore/Store      kvstore.c: the directory is a function from a hash and a chain position to the entry
--                      in the file, entries are the bytes that are written; init, find_entry, has_key, get,
--                      put_check, put, del_check, delete. Entry, Chain, Swap and Refines prove it.
--   Kvstore/Message    kvmessage.h and the message types and texts of kvconstants.h
--   Kvstore/Server     kvserver.c: get, put, delete, handle_no_tpc, handle_tpc, handle. Spec has the map that
--                      a server promises, Copies, Refines, Writes and Runs prove it.
--   Kvstore/Log        tpclog.c: the directory is a function from a number to the file; init, log, load_entry,
--                      iterate_begin, iterate_has_next, iterate_next, clear_log. Holds and Recover prove it.
--   Kvstore/Master     tpcmaster.c: the ring of slaves is the sequence of the nodes, ids and hashes are numbered
--                      from the least int64_t; init, hash_64_bit, register_slave, get_primary, get_successor,
--                      handle. Ring and Order prove it.
--   Kvstore/Queue      wq.c: the threads in wq_push and wq_pop, each with a program counter (Pc) and the next
--                      statement as a function (advance), the mutex and the condition variable of POSIX, and
--                      all interleavings (Step, Run). Order has the invariant, Steps and Runs prove it.
--   Kvstore/Examples   a concrete hash table and allocator, and the theorems at concrete inputs
--
-- The Pintos kernel (pintos/src) schedules threads (threads/thread.c) and
-- synchronizes them (threads/synch.c); interrupt handlers hand bytes to threads (devices/intq.c). Pages and the
-- sectors of the disk are allocated by bitmaps (lib/kernel/bitmap.c, threads/palloc.c, filesys/free-map.c). Files are
-- runs of sectors (filesys/inode.c), directories are files (filesys/directory.c).
--
--   Pintos/Threads     thread.c: a thread is its page, the kernel has the threads, the ready list, the current and
--                      the idle thread; schedule (with next_thread_to_run and schedule_tail), block, unblock,
--                      yield, exit, create, tick. A step between two switches is atomic, since interrupts are off.
--                      `none` is a failed ASSERT. Scheduled has the invariant, Switch, Leave, Wake and Steps prove it.
--   Pintos/Synch       synch.c: sema_init, sema_down_round (one test of the loop of sema_down), sema_try_down, sema_up,
--                      lock_init, lock_try_acquire, and lock_acquire and lock_release in the steps between
--                      which other threads may run. Waiting has the semaphores over the kernel, Exclusive and
--                      Mutual the lock.
--   Pintos/Intq        devices/intq.c: init, is_empty, is_full, and getc_round and putc_round, one test of the loops of
--                      intq_getc and intq_putc with what follows; Ring proves it.
--   Pintos/Cstring     lib/string.c: memory is a function from addresses to bytes; memcpy, memmove, memcmp, strcmp, memchr,
--                      strchr, strcspn, strspn, strrchr, memset, strlen, strlcpy, strlcat. Blocks, Text and Copies
--                      prove it.
--   Pintos/Division    lib/arithmetic.c: divl, nlz, udiv64, umod64 on numbers below 2^64; Quotient is
--                      about divisors below 2^32.
--   Pintos/Klist       lib/kernel/list.c: the links of all elements as functions from addresses; init, next, prev,
--                      insert, remove, the pushes and pops, size, max, min, insert_ordered. Chain and Edit have
--                      single links, Sequence what list a store holds; Refines, Ends and Walk prove it.
--   Pintos/Bitmap      lib/kernel/bitmap.c: bits in 32-bit words, every operation but those on files (for
--                      bitmap_write see FreeMap); Bit (single bits),
--                      Ranges and Scan prove it.
--   Pintos/Palloc      threads/palloc.c: two pools of pages, each a bitmap; get_multiple, free_multiple, init. Pages
--                      proves it.
--   Pintos/FreeMap     filesys/free-map.c: init, allocate, release on the bitmap of sectors, with
--                      bitmap_write to the file of the map (write_map). Sectors and Written prove it.
--   Pintos/Inode       filesys/inode.c: the device is a function from a sector to its 512 bytes; read_at and write_at with
--                      their loops over sectors, and an inode as the bytes of its sector. Bytes, Reads, Chunks,
--                      Writes, Total and Codec prove it.
--   Pintos/Inodes      filesys/inode.c: create, and the list of open inodes with inode_open, reopen, close, remove,
--                      deny_write, allow_write. Table and Life have its invariant, Create, Free and Files the life of a
--                      file.
--   Pintos/File        filesys/file.c: an inode and a position; open, reopen, close, read, write, seek, tell, deny and allow
--                      writes. Position proves it.
--   Pintos/Directory   filesys/directory.c: entries of 20 bytes in the file of a directory, through read_at and write_at;
--                      lookup, dir_lookup, add, remove_file, readdir. Slots, Entry and Add prove it.
--   Pintos/Examples    the theorems at concrete inputs
--   Shared             tests and lists over the native numbers; Bits (binary digits) and Slices (bytes in lists)
--
-- Bounds and fuel. The loops over hash chains and the eviction loop take fuel. The eviction loop is given two
-- rounds more than the list has elements, and always ends by itself. The chain loops are given `fuel`, which
-- has to be above the length of the chain. The loops of
-- inode_read_at and inode_write_at are given one round more than the bytes asked for, and always end by
-- themselves. The loops over linked lists are given `fuel`, which has to be above the number of elements,
-- and the loops over strings `fuel` above their length. Addresses, memory and the file system are arguments: `fresh` is
-- where malloc places a new element, `memory` whether there is memory, `allows` what the file system permits.
-- The utlist.h lists are modelled as the sequence of their nodes.
--
-- Not modelled: in the kernel, a device that fails, negative sizes and offsets of files, sums of sizes and
-- counters that wrap, and other threads within a call on files. In the key-value store, locks and other threads between the steps of a call
-- (but for the work queue), JSON and sockets (kvmessage.c,
-- socket_server.c), kvstore_clean, failing malloc in kvstore.c. The index of a cache set is that of a 64-bit
-- unsigned long hash that is cut to a 32-bit int.
pub mod Shared
pub mod Kvstore
pub mod Pintos
