-- ===== src/Tarfs.antt =====
-- sys/tarfs.c: the archive that holds the files, and the tree of `struct tar_file` over it.
pub mod Octal
pub mod Node
pub mod Path
pub mod Tree
pub mod Archive
pub mod Cwd
pub mod Tests
