-- ===== src/Python.antt =====
-- What the sources use of Python: exceptions, values that a YAML or JSON file loads to, numbers
-- and conversions. The children hold the parts.
mod Integers
mod Exceptions
mod Values
mod Builtins
pub mod Convert
unfoldable pub use Integers.*
unfoldable pub use Exceptions.*
unfoldable pub use Values.*
unfoldable pub use Builtins.*
