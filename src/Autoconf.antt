-- ===== src/Autoconf.antt =====
-- src/autoconf.h and src/autoconf.cc: the configuration, and how a pair from the configuration
-- file changes it. `Inspect`, which reads the file, is in Autoconf/Inspect.
pub mod Assign
pub mod Config
pub mod Inspect
pub mod Reload
pub mod Rounds
