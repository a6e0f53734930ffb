-- ===== src/Program.antt =====
-- main.cc: numbers of the command line, names of files, and options.
pub mod Numbers
pub mod Names
pub mod Options
