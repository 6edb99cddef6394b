-- ===== src/Tests.antt =====
-- Runs of the library's theorems on concrete data, and the data.
mod Backend
mod Lists
mod Calls
mod Creations
mod Requests
mod Machine
mod Nodes
mod Hosts
mod Mounts
mod Starts
