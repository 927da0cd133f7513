-- ===== src/Libc.antt =====
-- Routines of include/libc.h that are not system calls: the memory loops, the output of numbers and
-- formats, and the formatting of text into a buffer.
pub mod Memory
pub mod Print
pub mod Printf
pub mod Snprintf
pub mod Sprintf
pub mod Strings
pub mod Numbers
pub mod Input
pub mod Heap
