-- ===== src/FileSys.antt =====
-- code/filesys: the Nachos file system, from the directory down to the sectors of a file.
pub mod Name
pub mod Directory
pub mod Header
pub mod SynchDisk
pub mod OpenFile
