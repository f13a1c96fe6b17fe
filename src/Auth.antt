-- ===== src/Auth.antt =====
-- internal/auth: passwords, passkeys, second factors, sessions, and their HTTP handlers.
pub mod Identity
pub mod Password
pub mod Codes
pub mod Sessions
pub mod Login
pub mod Totp
pub mod Passkey
pub mod Ceremony
pub mod Passkeys
pub mod Asserted
pub mod SignedUp
pub mod FinishedOnce
pub mod Gate
pub mod Logout
pub mod Grant
pub mod SecondFactor
