-- ===== src/Agent.antt =====
-- ai/mcp-host and ai/agent-runtime: the tools an agent may call, and the supervised runtime.
pub mod Policy
pub mod Host
pub mod Authorization
pub mod Journal
pub mod Runtime
pub mod Supervision
pub mod Did
pub mod DidSyntax
pub mod Reversal
pub mod Sessions
mod Tests
