-- ===== src/Logger.antt =====
-- internal/logger/logger.go: the log streams of the processes and their rotation. A file is a number
-- that stays when its name changes, as an open `os.File` keeps to it. The children model the names of
-- the backups and prove what rotation keeps to.
pub mod Disk
pub mod Backups
pub mod Streams
pub mod Writers
