-- ===== src/TarFs/Mounted.antt =====
-- CourseWorks/coursework/tarfs.cpp and CourseWorks/infos/fs/vfs.cpp: a tar filesystem that is mounted
-- at the root of the virtual file system.
use inf3_os.Fs.Vfs.{Nodes}
use inf3_os.TarFs.Tree.Archive.{Archive}
