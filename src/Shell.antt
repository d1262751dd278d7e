-- ===== src/Shell.antt =====
-- The shell (src/tetrish): command history, aliases, words of a line, and the keys of the line
-- editor. A C string is the list of its character codes, without the closing 0.
pub mod History
pub mod Aliases
pub mod Words
pub mod Editor
pub mod Environment
mod Tests
mod KeyTests
