-- ===== src/Core/Table.antt =====
-- A table of the database behind its laws: `Table/Defs` defines it, `Table/Laws` proves what the
-- methods of `DbCtx` rely on.
mod Defs
mod Laws
unfoldable pub use Defs.*
pub use Laws.*
