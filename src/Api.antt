-- ===== src/Api.antt =====
-- The HTTP interface to the storage service: crates/api/src/error.rs and the handlers of
-- crates/api/src/handlers/docs.rs. A multipart request is the list of its fields, and the reading of
-- UTF-8 is a parameter.
pub mod Foreign
mod Tests
use nasserver.Base.{ℕ, String, Bool, true, false, Option, none, some, List, [], ◌∷◌, if◌then◌else◌}
use nasserver.Base.Text.{◌=s=◌}
use nasserver.Domain.{
  Error, internal, not_found, unauthorized, forbidden, bad_request, conflict, io, database, Result,
  ok, err, Attempt, done, failed, pure, fail, ◌>>=◌, ◌>>◌,
}
use nasserver.Storage.World.{Bytes, Platform, World, Op}
use nasserver.Storage.Save.{save_file}
use nasserver.Storage.Folders.{mkdir}
use nasserver.Storage.Reading.{get_file_reader}
use nasserver.Storage.Delete.{delete}
use nasserver.Storage.Rename.{rename}

-- `ApiError::into_response`: the status and the text of the body.
unfoldable pub into_response : Error → ℕ × String
into_response (internal message) = (500, message)
into_response (not_found message) = (404, message)
into_response (unauthorized message) = (401, message)
into_response (forbidden message) = (403, message)
into_response (bad_request message) = (400, message)
into_response (conflict message) = (409, message)
into_response (database message) = (500, message)
into_response (io message) = (500, message)

-- What the client gets: a body, or an error's status and text.
pub data Reply (A : Type 0) : Type 0 where
  body : A → Reply A
  refusal : (status : ℕ) (message : String) → Reply A

-- A field of a multipart request; its bytes may break off.
pub record Field : Type 0 where
  pub name : Option String
  pub file_name : Option String
  pub bytes : Attempt Bytes

-- The whole request: the fields, and the error of the stream behind them.
pub record Multipart : Type 0 where
  pub fields : List Field
  pub error : Option String

abbrev pub unwrap_or : Option String → String → String
unwrap_or none d = d
unwrap_or (some s) d = s

module _ (P : Platform) where
  abbrev pub reply_to : {A : Type 0} → Result A × World P → Reply A × World P
  reply_to (ok a, w) = (body a, w)
  reply_to (err e, w) = (refusal (into_response e).0 (into_response e).1, w)

  -- A handler: the reply to what the service does.
  abbrev pub reply : {A : Type 0} → Op P A → World P → Reply A × World P
  reply m w = reply_to (m w)

  -- `map_err(…)?` of a multipart error
  abbrev pub received : {A : Type 0} → Attempt A → Op P A
  received (done a) w = (ok a, w)
  received (failed message) w = (err (internal message), w)

  module _ (from_utf8 : Bytes → Option String) where
    -- The directory for the fields behind this one: a field "path" that is no file names it.
    abbrev pub next_parent : Field → Bytes → String → String
    next_parent f bytes parent = elim f.file_name [
      | some name ↦ parent
      | none ↦ if unwrap_or f.name "" =s= "path" then unwrap_or (from_utf8 bytes) parent else parent
    ]

    abbrev pub save_field : String → String → Field → Bytes → Op P (Unit {0})
    save_field username parent f bytes = elim f.file_name [
      | some name ↦ save_file P username parent name bytes
      | none ↦ pure tt
    ]

    -- The loop over the fields.
    unfoldable pub upload_fields : String → String → List Field → Option String → Op P (Unit {0})
    upload_fields username parent [] none = pure tt
    upload_fields username parent [] (some message) = fail (internal message)
    upload_fields username parent (f ∷ fs) broken = received f.bytes >>= λ bytes.
        save_field username parent f bytes
        >> upload_fields username (next_parent f bytes parent) fs broken

    -- `upload`
    unfoldable pub upload_file :
        String → Option String → Multipart → World P → Reply (Unit {0}) × World P
    upload_file username path multipart =
        reply (upload_fields username (unwrap_or path "/") multipart.fields multipart.error)

  -- `mkdir`
  unfoldable pub post_mkdir : String → String → World P → Reply (Unit {0}) × World P
  post_mkdir username path = reply (mkdir P username path)

  -- `rename`
  unfoldable pub post_rename :
      String → Option String → Option String → World P → Reply (Unit {0}) × World P
  post_rename username from to = reply (rename P username from to)

  -- `delete`, with the fuel of its loop.
  unfoldable pub post_delete : ℕ → String → Option String → World P → Reply Bool × World P
  post_delete fuel username path = reply (delete P fuel username path)

  -- `download`
  unfoldable pub get_download : String → Option String → World P → Reply Bytes × World P
  get_download username path = reply (get_file_reader P username (unwrap_or path "/"))
