-- ===== src/Mirror.antt =====
-- ssd_tier/mirror_manager.h and ssd_tier/mirror_manager.cpp (src/DesireeIA.LocaleEngine/src): two
-- copies of a file. A file system is a function from paths to contents, `none` for no file; which
-- paths may be read and written is a parameter. A stream that is open does not fail, other than
-- at the end of its file. The mutex is not modelled: a call is one step.
pub mod Files
pub mod Manager
pub mod Sync
pub mod Written
pub mod Repaired
pub mod Fallback
mod Tests
