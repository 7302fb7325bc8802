-- ===== src/Compiler.antt =====
-- The template preprocessor of src/lib/compiler-parser.cpp: unit source to C++ source.
pub mod Literal
pub mod Code
pub mod Markup
pub mod Preprocess
pub mod Entry
pub mod Fragment
pub mod Source
