-- ===== src/OrderReader.antt =====
-- apps/order_reader.cpp: the program that brings the orders of a region from the server into the database.
pub mod Tables
pub mod Update
pub mod Prices
mod Tests
