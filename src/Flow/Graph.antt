-- ===== src/Flow/Graph.antt =====
-- gnes/flow/__init__.py: `_build_graph`, `build`, `__enter__`, `close` and `__eq__`.
mod Edges
mod Sockets
mod Backends
unfoldable pub use Edges.*
unfoldable pub use Sockets.*
unfoldable pub use Backends.*
