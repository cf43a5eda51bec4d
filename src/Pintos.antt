-- ===== src/Pintos.antt =====
-- The Pintos kernel of pintos/src: one module for each part.
pub mod Threads
pub mod Synch
pub mod Intq
pub mod Cstring
pub mod Division
pub mod Klist
pub mod Bitmap
pub mod FreeMap
pub mod Palloc
pub mod Inode
pub mod Inodes
pub mod File
pub mod Directory
pub mod Examples
