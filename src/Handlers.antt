-- ===== src/Handlers.antt =====
-- pkg/handlers: the conditions under which a client stops watching a resource. The functions of a
-- watch event return (done, error); a log line or a print is no part of the result.
pub mod Verdict
pub mod Queue
pub mod Run
pub mod Pod
