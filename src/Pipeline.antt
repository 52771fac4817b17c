-- ===== src/Pipeline.antt =====
-- The multi-agent accounting pipeline (app/agents): its shared state, the audit records that flow
-- through it, the validation nodes, the supervisor's routing and the graph that ties them together.
pub mod Audit
pub mod State
pub mod Findings
pub mod Validator
pub mod Puc
pub mod Nodes
pub mod Tributario
pub mod Router
pub mod Auditors
pub mod Agents
pub mod Graph
pub mod Tests
mod RuleTests
