-- ===== src/Command.antt =====
-- src/mncommand.c: the commands of a command line. Strings are those of mncommon, by the interface
-- `MnBytes`; the arrays are lists, and whether one can grow is a parameter.
pub mod Defs
mod Values
mod Add
mod Wrap
mod Getopt
mod Help
mod Rows
mod Release
mod Tests
