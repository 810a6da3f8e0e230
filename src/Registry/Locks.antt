-- ===== src/Registry/Locks.antt =====
-- The lock of the registry: every operation gives it back as often as it takes it.
use ether_recorder_suite.Registry.Core.{Registry}
