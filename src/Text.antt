-- ===== src/Text.antt =====
-- The text functions of src/lib/functionlib.cpp and src/lib/types.cpp, one module for each family.
pub mod Nibble
pub mod Trim
pub mod Split
pub mod Escape
pub mod Xml
pub mod Replace
pub mod Pieces
