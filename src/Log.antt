-- ===== src/Log.antt =====
-- The logging system: log/ and the headers that go with it.
pub mod FixedBuffer
pub mod LogStream
pub mod AsyncLogging
pub mod FileUtil
pub mod LogFile
pub mod Logger
