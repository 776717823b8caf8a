-- ===== src/Proxy.antt =====
-- main.go: the path of a request through the proxy.
pub mod Routing
pub mod Policy
pub mod Backends
pub mod Dispatch
pub mod Direct
pub mod Forward
pub mod Upstream
pub mod Headers
pub mod Handler
pub mod Recorder
pub mod Tests
