-- ===== src/Api/Foreign.antt =====
-- What the handlers answer to a user who asks for the files of another.
use nasserver.Base.{
  ℕ, String, ◌≡◌, refl, false, Option, none, some, List, [], ◌∷◌, arith, if◌then◌else◌,
  Option-cases, inl, inr,
}
use nasserver.Base.Text.{◌=s=◌}
use nasserver.Domain.{forbidden, Result, err, done, failed, Attempt-cases}
use nasserver.Storage.World.{Bytes, Platform, World}
use nasserver.Storage.Save.{save_file, may_act}
use nasserver.Storage.Folders.{mkdir}
use nasserver.Storage.Reading.{get_file_reader}
use nasserver.Storage.Delete.{delete}
use nasserver.Storage.Rename.{rename}
use nasserver.Storage.Isolation.{Refuses, foreign-Refuses}
use nasserver.Storage.Isolation.UserPaths.{IsUserPath}
use nasserver.Api.{
  into_response, Reply, refusal, Field, Multipart, unwrap_or, reply, upload_fields, upload_file,
  post_mkdir, post_rename, post_delete, get_download,
}

-- The directory that the first file of a request goes to, if one arrives.
abbrev pub first_upload : (Bytes → Option String) → String → List Field → Option String
first_upload from_utf8 parent [] = none
first_upload from_utf8 parent (f ∷ fs) = elim f.bytes [
  | failed message ↦ none
  | done bytes ↦ elim f.file_name [
    | some name ↦ some parent
    | none ↦
        first_upload from_utf8
          (if unwrap_or f.name "" =s= "path" then unwrap_or (from_utf8 bytes) parent else parent) fs
  ]
]

-- The reply is 403 "Access denied", and nothing has changed.
abbrev pub IsForbidden :
    {P : Platform} {A : Type 0} → (World P → Reply A × World P) → World P → Type 0
IsForbidden handler w = handler w ≡ (refusal 403 "Access denied", w)

reply-IsForbidden :
    (P : Platform) {A : Type 0} (m : World P → Result A × World P) (w : World P)
    → m w ≡ (err (forbidden "Access denied"), w)
    → IsForbidden {P = P} (reply P m) w
unfolding into_response
reply-IsForbidden P m w h = rw h refl

module _ (P : Platform) (from_utf8 : Bytes → Option String) (username : String) where
  upload_fields-Refuses :
      (dir parent : String) (fields : List Field) (broken : Option String) (w : World P)
      → ((name : String) (bytes : Bytes) → Refuses {P = P} (save_file P username dir name bytes) w)
      → first_upload from_utf8 parent fields ≡ some dir
      → Refuses {P = P} (upload_fields P from_utf8 username parent fields broken) w
  unfolding upload_fields
  upload_fields-Refuses dir parent [] broken w refuses h = absurd (ground arith)
  upload_fields-Refuses dir parent (f ∷ fs) broken w refuses h = elim (Attempt-cases f.bytes) [
    | inr (m, e) ↦ absurd (ground arith)
    | inl (bytes, e) ↦ elim (Option-cases f.file_name) [
      | inr (name, g) ↦
          let same : parent ≡ dir = ground arith in
          rw (e, g) (rw same (rw (refuses name bytes) refl))
      | inl g ↦
          let next =
            if unwrap_or f.name "" =s= "path" then unwrap_or (from_utf8 bytes) parent else parent in
          rw (e, g) (upload_fields-Refuses dir next fs broken w refuses (ground arith))
    ]
  ]

-- A user who is neither the owner nor admin gets the reply 403 "Access denied", with the database, the
-- files and the clock unchanged, to the upload of files of which the first goes to a directory of the
-- owner, "/User/<owner>/…" after normalisation, and to making, deleting and downloading such a path and
-- renaming it to another one of the owner.
pub foreign-IsForbidden :
    (P : Platform) (from_utf8 : Bytes → Option String) (username owner dir to : String)
    (rest to_rest : List String) (path : Option String) (m : Multipart) (w : World P)
    → IsUserPath owner rest dir
    → IsUserPath owner to_rest to
    → may_act username owner ≡ false
    → first_upload from_utf8 (unwrap_or path "/") m.fields ≡ some dir
    → IsForbidden {P = P} (upload_file P from_utf8 username path m) w
      × IsForbidden {P = P} (post_mkdir P username dir) w
      × ((fuel : ℕ) → IsForbidden {P = P} (post_delete P fuel username (some dir)) w)
      × IsForbidden {P = P} (get_download P username (some dir)) w
      × IsForbidden {P = P} (post_rename P username (some dir) (some to)) w
unfolding upload_file post_mkdir post_delete get_download post_rename
foreign-IsForbidden P from_utf8 username owner dir to rest to_rest path m w is_dir is_to foreign
      first =
    let (save, save_from, make, read, local_path, remove, move) =
      foreign-Refuses P username owner dir to rest to_rest w is_dir is_to foreign in
    (
      reply-IsForbidden P (upload_fields P from_utf8 username (unwrap_or path "/") m.fields m.error)
          w
          (upload_fields-Refuses P from_utf8 username dir (unwrap_or path "/") m.fields m.error w
            save first),
      reply-IsForbidden P (mkdir P username dir) w make,
      λ fuel. reply-IsForbidden P (delete P fuel username (some dir)) w (remove fuel),
      reply-IsForbidden P (get_file_reader P username dir) w read,
      reply-IsForbidden P (rename P username (some dir) (some to)) w move,
    )
