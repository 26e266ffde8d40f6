-- ===== src/Server.antt =====
-- Chat-Server/core/Server.cpp: the one object that all connections report to.
pub mod Registry
