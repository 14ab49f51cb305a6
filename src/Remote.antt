-- ===== src/Remote.antt =====
-- store/remotestore: the URL scheme, the HTTP handler and the client store.
pub mod Protocol
pub mod Handler
pub mod Client
pub mod DirMap
pub mod EndToEnd
mod Tests
