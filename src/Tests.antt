-- ===== src/Tests.antt =====
-- Concrete tables and environments, and the theorems at them.
mod Data
mod Stores
mod Auths
mod Posts
mod Passkeys
mod Web
mod Routes
mod Migrations
