-- ===== src/Command.antt =====
-- cmd/s3disk: how the words of a command line become the settings of a mount. Starting processes,
-- printing, signals and logging are left out.
pub mod Args
pub mod Options
pub mod Flags
pub mod Mount
