-- ===== src/Fat32.antt =====
-- fat32/: the FAT32 file system.
pub mod Card
pub mod Entry
pub mod Disk
pub mod Clusters
pub mod Writing
pub mod Names
pub mod Dirent
pub mod Volume
pub mod Directory
pub mod Files
pub mod Calls
pub mod Examples
