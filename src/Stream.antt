-- ===== src/Stream.antt =====
-- src/api/v1/routers/sse.py: the stream of Server-Sent Events that a client asks for. The children
-- are the check of the request, the two polling tasks, and the generator with its subscriptions.
pub mod PythonFloat
pub mod Request
pub mod Tasks
pub mod Session
pub mod Listening
pub mod Events
pub mod Loadcells
pub mod Delivery
pub mod Cleanup
pub mod Failure
mod Tests
