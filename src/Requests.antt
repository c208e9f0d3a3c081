-- ===== src/Requests.antt =====
-- libs/Semaphore, libs/QueryRunner and libs/HTTPSRequestHandler: what apps/order_reader.cpp waits with,
-- and what it asks the database and the servers with.
pub mod Semaphore
pub mod Http
pub mod Group
mod Tests
