-- ===== src/Flow/Edit.antt =====
-- gnes/flow/__init__.py: `__init__`, `add`, `set` and `remove`. Each is the change of `op_flow`, which
-- `with_copy` makes on `self` or on a copy.
mod Adding
mod Changing
unfoldable pub use Adding.*
unfoldable pub use Changing.*
