-- ===== src/Launcher.antt =====
-- The processes that src/jpgsync.cpp starts: the class Executor and its subclasses, and
-- `main` behind the parsing of the options, for the launcher itself and with --local for one peer.
--
-- The shell is a parameter: what a command writes to its output, and how it exits. The arguments are
-- those of argv behind the parsing of the options, with the roots first.
pub mod Commands
pub mod Capture
pub mod Words
pub mod Decimal
pub mod Announce
pub mod Main
pub mod Status
pub mod Roots
pub mod Local
pub mod Unheard
pub mod Program
mod Runs
