-- ===== src/Signal.antt =====
-- forest/core.py, class `Signal`: the process that talks to the Signal network (Restart), the speed
-- at which commands are written to it (Limit), and the requests that wait for its answers
-- (Requests).
pub mod Inbox
pub mod Limit
pub mod Outgoing
pub mod Requests
pub mod Restart
pub mod Shutdown
mod Tests
