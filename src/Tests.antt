-- ===== src/Tests.antt =====
-- Runs of the model on small inputs, and the theorems applied to them.
mod Data
mod Ingest
mod Parse
mod State
mod Api
mod Bulk
mod Runs
mod Legacy
mod Service
mod Migrate
mod Startup
mod Mint
mod Mysql
