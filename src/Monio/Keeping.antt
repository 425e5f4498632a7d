-- ===== src/Monio/Keeping.antt =====
-- What the calls of src/monio/Monio.cc leave of the files' data and of the variables that these point
-- to.
pub mod Rules
pub mod Heaps
pub mod Initialise
pub mod Stores
pub mod Writing
