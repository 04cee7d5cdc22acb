-- ===== src/Middleware.antt =====
-- agent/middleware: what is wrapped around the calls of models and tools.
pub mod ModelRetry
pub mod StructuredRetry
pub mod ToolError
