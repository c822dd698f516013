-- ===== src/Tests.antt =====
-- The theorems of the other modules at concrete inputs.
mod Texts
mod Requests
mod Responses
mod Server
mod Threads
mod Sockets
mod Configs
mod Forms
mod Parsers
mod Arrivals
mod Logs
