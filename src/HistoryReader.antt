-- ===== src/HistoryReader.antt =====
-- apps/history_reader.cpp: the history of the prices of a type, from the server into the database.
pub mod Queries
pub mod Request
mod Tests
