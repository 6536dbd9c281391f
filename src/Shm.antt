-- ===== src/Shm.antt =====
-- inc/shm.h: the constants of the two shared-memory segments, and their layout. The child modules
-- are src/shm.cpp: how a process attaches to the segments and leaves them.
mod Defs
pub mod Attach
pub mod Count
pub mod Race
pub use Defs.*
