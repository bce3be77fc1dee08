-- ===== src/Downloader/Columns.antt =====
-- The types of the values that pass between sqlx and PostgreSQL in
-- crates/downloader/src/downloader_service.rs. The columns `id` and `user_id` of the tables are of type
-- UUID (crates/infra/migrations). PostgreSQL has no operator that compares a UUID with a text, and
-- sqlx does not decode a UUID as a `String`.
use nasserver.Base.{String, Option, none, some}

-- What is bound to a statement, or read from a column: a `String` is a text, a `Uuid` a UUID.
pub data Value : Type 0 where
  text uuid : String → Value

-- The UUID that a column of that type is compared with; none where the statement is refused.
unfoldable pub as_uuid : Value → Option String
as_uuid (text s) = none
as_uuid (uuid s) = some s

-- The column's value as a `String`; none where it is not decoded.
unfoldable pub as_text : Value → Option String
as_text (text s) = some s
as_text (uuid s) = none
