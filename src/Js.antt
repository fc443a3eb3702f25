-- ===== src/Js.antt =====
-- The values that the services receive, as the checks at their entry read them: the part of the
-- JavaScript language that packages and services use on arguments that are not yet validated.
mod Data
mod Utc
mod Identifier
mod Checks
mod Patterns
unfoldable pub use Data.*
unfoldable pub use Checks.*
unfoldable pub use Patterns.*
unfoldable pub use Utc.{canonical_utc, parse_utc}
unfoldable pub use Identifier.{matches_id}
pub use Identifier.{matches_id-without_bar}
