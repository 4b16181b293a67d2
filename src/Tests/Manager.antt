-- ===== src/Tests/Manager.antt =====
-- The theorem on find data at a concrete input.
use adb_wfx_plugin.Shim.{Running}
use adb_wfx_plugin.Tests.Core.{start}

abbrev running : Running
running = record { port = 5037; cache = start.cache }
