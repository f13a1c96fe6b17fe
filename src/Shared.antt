-- ===== src/Shared.antt =====
-- The names that the other modules share: the libraries', passed on, and those of the children.
mod Tests
mod Names
mod Lists
mod Bytes
mod Int
mod Control
pub use Tests.*
pub use Names.*
pub use Lists.*
pub use Bytes.*
pub use Int.*
pub use Control.{Result, ok, err, Exec, continue, ◌>>◌}
unfoldable pub use Control.{pure, stop, ◌>>=◌, catch}
pub use Control.{
  >>=-eq, >>=-ok, >>=-err, catch-ok, catch-err, >>=-after, catch-stop-ok, catch-stop-err,
  >>=-stopped, Result-cases, ok_inj, Keeps, Keeps-pure, Keeps-stop, Keeps-bind, Keeps-catch,
  Keeps-if, keeps_rules,
}
unfoldable pub use Lists.{any, all}
unfoldable pub use Bytes.{text_beq}
