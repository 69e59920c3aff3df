-- ===== src/Tests.antt =====
-- Concrete volumes, vectors and tables: the test data of the examples below.
mod Data
mod Vectors
mod Tables
mod Metadata
mod Blocks
mod WriteBlock
mod Operations
mod Writer
mod Service
mod Stored
