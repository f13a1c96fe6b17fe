-- ===== src/Store.antt =====
-- internal/store/store.go: the data-access layer, over tables that stand for PostgreSQL's.
pub mod Table
pub mod Schema
pub mod Statement
pub mod Rows
pub mod Idle
pub mod Outside
pub mod Sessions
pub mod Flows
pub mod Totp
pub mod Users
pub mod Audit
pub mod Captcha
pub mod Notes
pub mod Prefs
pub mod Reports
pub mod Summaries
pub mod Ordered
pub mod History
pub mod Revocation
pub mod Keys
pub mod Ceremonies
pub mod Factors
pub mod Recovery
pub mod Rollback
pub use Schema.*
unfoldable pub use Table.{find, update_where, delete_where, count_where, select_where}
pub use Table.{
  find_sound, find-update, find-delete, count-update_self, All-update, All-delete, All-find,
}
pub use Statement.{World, Outage, Stored, Query}
pub use Outside.{Platform, Argon, RelyingParty}
