-- ===== src/WebSocket.antt =====
-- The WebSocket part of src/lib/uri.cpp and src/fastcgi/src/fcgicc.cc.
pub mod Frame
pub mod Utf8
pub mod Connection
pub mod Fleet
