-- ===== src/Auth.antt =====
-- src/auth.py: roles, the actor that a request resolves to, and the gates that the handlers call.
-- The token validation by auth-service is a parameter.
pub mod Roles
pub mod Bearer
pub mod Gates
pub mod Rights
