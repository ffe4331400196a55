-- ===== src/Mm.antt =====
-- Memory management: coursework/buddy.cpp, infos/mm and infos/include/infos/mm.
pub mod Buddy
pub mod Memory
pub mod Pages
pub mod Vma
