-- ===== src/Agents.antt =====
-- Package agent: the agents that come with the program.
pub mod LogReader
pub mod LogAnalyzer
pub mod Echo
pub mod Golden
pub mod OnFiles
mod Tests
