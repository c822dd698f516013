-- ===== src/HttpServer.antt =====
-- src/http_server.h and src/http_server.cpp: methods, the resources of a server, and the watcher
-- that answers a connection's events.
pub mod Method
pub mod Routes
pub mod Watcher
pub mod Server
