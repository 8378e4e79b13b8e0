-- ===== src/Lock.antt =====
-- include/kernel/lock.h and kernel/lib/lock.c: the locks of the kernel.
pub mod Threads
pub mod RwLock
pub mod RwSem
