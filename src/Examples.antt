-- ===== src/Examples.antt =====
-- Concrete inputs: the theorems applied to them, and tests of the definitions.
pub mod Traffic
pub mod Parser
pub mod ParserTools
pub mod Engine
pub mod Runtime
pub mod Planner
pub mod Executor
pub mod Calibration
