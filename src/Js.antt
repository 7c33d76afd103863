-- ===== src/Js.antt =====
-- What the source uses of the language and its standard library.
pub mod Decimal
pub mod Map
pub mod Number
pub mod Sorting
pub mod Text
