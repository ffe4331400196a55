-- ===== src/Kernel/Syscalls/Files.antt =====
-- CourseWorks/infos/kernel/syscall.cpp: a file or a directory from its opening on.
