-- ===== src/Tests.antt =====
-- Runs of the program's functions at concrete inputs, and the theorems applied to them.
mod Host
mod Text
mod Views
mod Responses
mod Queues
mod Logs
mod Requests
mod Files
mod Pools
mod Answers
mod Requested
mod Paths
mod Starts
mod Shutdowns
