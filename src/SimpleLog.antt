-- ===== src/SimpleLog.antt =====
-- The logger of src/simple_log.h and src/simple_log.cpp: FileAppender has the file that lines are
-- appended to and its rotation by days, Log the levels, the configuration and the calls that log.
pub mod FileAppender
pub mod Log
pub mod Rotation
pub mod Shift
pub mod Preparing
pub mod Keeping
pub mod Levels
