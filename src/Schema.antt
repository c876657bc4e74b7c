-- ===== src/Schema.antt =====
-- The data model of prisma/schema.prisma: enums and the rows of the tables. Ids are strings that
-- the program compares and tests for emptiness: they are numbers, and 0 is the empty string.
-- Instants are numbers of milliseconds. `D` is the type of decimal numbers.
pub mod Rows
pub use Rows.*
use fruct.Prelude.{ℕ, Bool, true, false, Option, none, some, not, ◌==◌}

-- A string in a condition: the empty string counts as absent.
abbrev pub truthy : Option ℕ → Bool
truthy none = false
truthy (some k) = not (k == 0)
