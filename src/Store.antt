-- ===== src/Store.antt =====
-- The Postgres database: the rows of the tables that the migrations of backend/alembic/versions
-- create, and the SQL statements that the services run on them.
pub mod Table
pub mod Members
pub mod Lookup
pub mod Distinct
pub mod Schema
pub mod Changes
pub mod Constraints
pub mod Query
