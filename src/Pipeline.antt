-- ===== src/Pipeline.antt =====
-- The upload pipeline of monitor.c, servers.c and utils/encapsulate_queue.c: files found by a
-- monitor group wait in its queue; the group's scheduler thread hands copies of a node to the
-- queues of servers; the upload threads of a server work them off. Flag files next to the
-- monitored file say what is still to be uploaded.
pub mod State
pub mod Server
pub mod Flags
pub mod Schedule
pub mod Finish
pub mod Rounds
pub mod Counting
pub mod Dispatch
pub mod Memory
pub mod Serving
pub mod Drain
pub mod Shutdown
pub mod Signal
