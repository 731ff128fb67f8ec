-- ===== src/Uml.antt =====
-- The canonical UML document and the commands that edit it: collaboration.types.ts, with the
-- executor (uml-command.executor.ts) in a child.
pub mod Types
pub mod Json
pub mod View
pub mod Command
pub mod Multiplicity
pub mod Executor
pub mod Validation
pub mod Engine
pub mod Persistence
pub mod Tests
pub mod ValidationTests
