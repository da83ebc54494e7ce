-- ===== src/Database.antt =====
-- Packages database, sqlite (driver.go) and postgres: connection managers over pluggable drivers.
pub mod Driver
pub mod Manager
pub mod GormLogger
