-- ===== src/Registry.antt =====
-- EtherRecorder/src/thread_registry.c with its headers: the list of the threads of the program,
-- their states, their queues of messages, and the waits for their ends.
pub mod State
pub mod Core
pub mod Entries
pub mod Ops
pub mod Inv
pub mod Queues
pub mod Posting
pub mod Waits
pub mod Health
pub mod Step
pub mod Laws
pub mod Membership
pub mod Reach
pub mod Locks
