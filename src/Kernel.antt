-- ===== src/Kernel.antt =====
-- CourseWorks/infos/kernel: objects with handles, and the system calls on files.
pub mod Objects
pub mod Syscalls
