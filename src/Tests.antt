-- ===== src/Tests.antt =====
-- Runs of the definitions at concrete inputs, and the theorems at inputs that meet their hypotheses.
mod Uri
mod Socket
mod Connection
mod Fastcgi
mod Http
mod Session
mod Reader
mod Compiler
mod Message
mod Tree
mod Files
mod Form
