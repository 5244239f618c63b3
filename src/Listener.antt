-- ===== src/Listener.antt =====
-- internal/eventlistener: programs that subscribe to the events of processes.
pub mod Queue
pub mod Wire
pub mod Result
pub mod Protocol
pub mod Manager
