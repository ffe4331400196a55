-- ===== src/Fs.antt =====
-- CourseWorks/infos/fs: paths, and the nodes that they lead to.
pub mod Paths
pub mod Forest
pub mod Cutting
pub mod Listing
pub mod Growing
pub mod Vfs
