-- ===== src/Mcp.antt =====
-- The MCP server's own state: what a client may write, what the user confirms, and what was done.
-- apps/editor/src-tauri/src/mcp/authorization.rs, confirmation.rs, operations.rs and
-- request_lifetime.rs, with mcp.rs and mcp_token.rs beside the folder.
pub mod Authorization
pub mod Confirmation
pub mod Operations
pub mod Permits
pub mod Authentication
pub mod Connections
