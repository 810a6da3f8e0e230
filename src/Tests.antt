-- ===== src/Tests.antt =====
-- Runs of the models at small inputs, and the theorems at inputs that meet their hypotheses.
mod Queues
mod Threads
mod Commands
mod Logs
mod Settings
mod Apps
mod Comms
mod Files
mod Lives
mod Logging
mod Managers
mod Processors
