-- ===== src/Samples.antt =====
-- A platform in memory, at which the theorems are applied, and runs of the program over it.
mod Database
mod Redis
mod Memory
mod Runs
mod Requests
mod Storage
mod Model
mod Uploads
mod Local
mod Witnesses
mod Answered
