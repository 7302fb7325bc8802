-- ===== src/Uri.antt =====
-- src/lib/uri.cpp: percent coding, query strings, routes, forms and cookies.
pub mod Percent
pub mod Query
pub mod Route
pub mod Multipart
pub mod Cookies
