-- ===== src/Dfs.antt =====
-- dfs/: the distributed file system.
pub mod Master
pub mod Chunks
pub mod Packets
pub mod FileNames
pub mod Requests
pub mod FileRequests
pub mod Serve
pub mod ChunkServer
pub mod Client
pub mod Transfer
pub mod Shell
