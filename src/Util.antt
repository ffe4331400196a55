-- ===== src/Util.antt =====
-- CourseWorks/infos/include/infos/util and CourseWorks/infos/util: the kernel's own containers,
-- texts and times.
pub mod Equality
pub mod LinkedList
pub mod Time
pub mod Text
pub mod Map
pub mod CommandLine
pub mod Lock
mod Tests
