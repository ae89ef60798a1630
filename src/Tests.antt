-- ===== src/Tests.antt =====
-- Runs of the development on concrete members, libraries and tables.
mod Fixtures
mod Tables
mod People
mod Deliveries
mod Sweeps
mod Offices
mod Monitor
mod Books
