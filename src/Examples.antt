-- ===== src/Examples.antt =====
-- Concrete runs, at which the theorems apply.
mod Data
mod Utils
mod Registry
mod Pending
mod Supervisor
mod Events
mod Ipc
mod Auth
mod Actions
mod Budget
mod Connection
mod Publishing
mod Loader
mod Devices
