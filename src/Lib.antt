-- ===== src/Lib.antt =====
-- Verification of dfs-pios: a distributed file system on bare-metal Raspberry Pis.
--
-- The program. A master, chunk servers and clients (dfs/) talk over an nRF radio (network/) and
-- keep their files on SD cards by a FAT32 file system (fat32/); interrupt handlers hand bytes to
-- threads through a circular queue (libpi/libc/circular.h).
--
-- The modules.
--   Base: numbers, lists, wrap-around, and `Outcome`, the result of a call in C: `ok` a value,
--     `panic` (a failed assert, demand or panic), `fault` (an access out of range), or
--     `out_of_fuel`.
--   Fat32.Entry: fat32/fat32-helpers.c, fat32_fat_entry_type.
--   Fat32.Disk: fat32/pi-sd.c, and the state, `System`: the card, the two init_p flags, and the
--     fat32_fs_t with its table in memory. A function that changes state takes and returns it.
--   Fat32.Clusters: fat32/fat32.c, cluster_to_lba, get_cluster_chain_length, read_cluster_chain,
--     find_free_cluster, write_fat_to_disk, and the loop of fat32_delete.
--   Fat32.Writing: fat32/fat32.c, write_cluster_chain.
--   Fat32.Names: fat32/fat32-helpers.c, to_8dot3, fat32_is_valid_name, fat32_dirent_set_name, and
--     the comparison of names in fat32/fat32.c.
--   Fat32.Dirent: fat32/fat32-helpers.h and fat32/fat32-lfn-helpers.c, the layout of an entry.
--   Fat32.Directory: fat32/fat32.c, find_dirent_with_name, fat32_readdir, fat32_stat,
--     fat32_write_dirent.
--   Fat32.Files: fat32/fat32.c, fat32_read, fat32_create, fat32_delete, fat32_rename,
--     fat32_write, fat32_truncate.
--   Fat32.Volume: fat32/mbr.c, fat32/mbr-helpers.c, fat32_volume_id_check, fat32_fsinfo_check, and
--     fat32_mk of fat32/fat32.c.
--   Fat32.Calls: fat32/fs-apis.c, the calls by path.
--   Fat32.Card and Fat32.Examples: a card in memory and a small file system, for the tests.
--   Circular: libpi/libc/circular.h.
--   Linked: libpi/libc/Q.h, with the fields `next` of all elements as one function.
--   Threads.Preemptive: preemptive-threads/preemptive-thread.c and thread-safe-io.c; the state is
--     `Kernel`, with the blocks in the order of allocation and a queue as the list of its blocks.
--     Child modules: Handlers (system calls, UART), Scheduler (pre_thread_start), and Places,
--     Forking, Console, Calls, Devices, Rousing, Rounds, Waiting, Choice, Fairness and Steps for the
--     theorems.
--   Threads.Cooperative: threads/rpi-thread.c; the state is `Pool`, in the same way.
--   Dfs.Chunks: dfs/dfs-master-fat.c, the table of the chunks of a file.
--   Dfs.Master: dfs/dfs-master.c, try_assign_port, the heartbeats, the choice of a server.
--   Dfs.Packets: libpi/include/dfs-cmd.h, packets as bytes.
--   Dfs.FileNames: libpi/include/dfs-fat32-common.h, the names of chunk files.
--   Dfs.Requests, Dfs.FileRequests and Dfs.Serve: dfs/dfs-master.c, the cases of the switch of
--     dfs_master_main_start, and the loop on the packets that are received in time.
--   Dfs.ChunkServer: dfs/dfs-chunkserver.c and dfs/dfs-chunk-fat.c.
--   Dfs.Client and Dfs.Transfer: dfs/dfs-client.c, the requests, and the data of a chunk.
--   Dfs.Shell: dfs/dfs-client-command.c, client_parse; `Air` is what the radio does meanwhile.
--
-- How the parts interact. Dfs.Serve hands packets to Dfs.Requests and Dfs.FileRequests, which call
-- Dfs.Master for ports and servers, Dfs.Chunks for the table of a file, and Fat32.Calls. Threads use
-- the console through two queues of Circular, and stand in queues of Linked, which are lists in
-- Threads.Preemptive since no block is in two of them, and in Threads.Cooperative. Dfs.Shell calls
-- the requests of Dfs.Client and Dfs.Transfer, whose packets Dfs.Requests and Dfs.ChunkServer
-- answer. Fat32.Volume makes the file system that the others work on. Fat32.Calls turns the name of
-- a directory into an entry and calls Fat32.Files; Dfs.Chunks keeps its table in files by these
-- calls. Fat32.Files calls Fat32.Directory for entries, Fat32.Writing and
-- Fat32.Clusters for data, and these call Fat32.Disk. The driver of the card is a parameter,
-- `SdCard`; theorems that need a working card take `Reliable`, which says that a sector on the
-- card can be read and written, that it holds what was written last, and that a write leaves the
-- sectors outside it. The test card shows that this can hold.
--
-- Loops. A walk along a chain of clusters runs on fuel, since a damaged table can be a cycle; the
-- length of the chain is enough, and the theorems are about calls with at least that. Loops with a
-- counter are recursion on what is left of it.
--
-- Interrupts: the handlers, the scheduler, the printer and pre_exit, which its trampoline calls, run
-- with interrupts disabled, and each is one step of Threads.Preemptive.Steps. A thread that calls
-- pre_fork has them enabled: it is two steps there, with the block in `in_hand` between. An
-- interrupt inside th_alloc or Q_append is no step; Linked.Interrupted is about what it does.
--
-- The scheduler: a round ends with the switch to a thread; what happens until control comes back is
-- given as steps, so that its endless loop needs no fuel. The FIFOs of the UART, and whether a
-- packet can be sent, are arguments; so is the list of what arrives at a client.
--
-- Not modelled: traces and printing; kmalloc, which returns fresh memory; the copies of the table
-- behind the first, which the code does not write either; the parts of the program that are not
-- named above.
pub mod Base
pub mod Fat32
pub mod Circular
pub mod Dfs
pub mod Linked
pub mod Threads
