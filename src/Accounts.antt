-- ===== src/Accounts.antt =====
-- Who may use the server: users, sessions, invitations and the tokens of WebDAV clients
-- (nexuscloud/internal/users, nexuscloud/internal/auth, nexuscloud/internal/webdav/token.go).
pub mod Model
pub mod World
pub mod Users
pub mod Sessions
pub mod Authenticator
pub mod Invitations
pub mod Tokens
pub mod Requests
