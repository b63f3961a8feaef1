-- ===== src/Python.antt =====
-- What the program uses of Python: exceptions, dynamically typed values, texts, dictionaries and
-- the parsing of UUIDs by the standard library.
pub mod Exec
pub mod Object
pub mod Text
pub mod Uuid
pub mod Dict
pub mod Sorting
