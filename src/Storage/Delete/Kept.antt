-- ===== src/Storage/Delete/Kept.antt =====
-- What trashing a directory keeps true of the object store, where its calls keep it: the loop of
-- trash_directory_recursive in crates/storage/src/storage_service.rs.
use nasserver.Base.{
  ℕ, ◌+◌, String, ◌≡◌, ap, Bool, true, false, ◌||◌, Option, none, some, List, [], ◌∷◌, ltb, arith,
  if◌then◌else◌, Option-cases, inl, inr,
}
use nasserver.Base.Text.{◌<>◌, ◌=s=◌, starts_with, is_empty}
use nasserver.Domain.{
  Error, Result, ok, err, Attempt, after, pure, fail, require, ignore, ◌>>=◌, ◌>>◌, bad_request,
  database,
}
use nasserver.Storage.Paths.{normalize_path, path_parts, object_parent}
use nasserver.Storage.World.{
  TrashItem, User, Entry, Db, Platform, World, Op, query, execute, commit, fresh, inspect, perform,
}
use nasserver.Storage.Tables.{insert_trash_item, insert_trash_or_skip}
use nasserver.Storage.Access.{
  permissions, user_id_of, check_app_access, resolve_app_data, resolve_user, resolve_clean,
  resolve_opendal_path,
}
use nasserver.Storage.Access.Reads.{resolve_trash_still}
use nasserver.Storage.Save.{ensure_parent}
use nasserver.Storage.Folders.{child_path}
use nasserver.Storage.Reading.{blob_base}
use nasserver.Storage.Trash.{
  relative_to, hash_and_archive_file, current_time, upsert_trash_file_item, insert_trash_dir_item,
  trash_entry, trash_entries, list_or_empty,
}

-- The calls of the object store that trashing makes keep a property of it: making the directory of the
-- blobs, moving a file there, and removing a directory.
pub record IsKept (P : Platform) (J : P.Files → Type 0) : Type 0 where
  pub makes :
      (username hash dir : String) (fs : P.Files)
      → object_parent (blob_base username <> ("/" <> hash)) ≡ some dir
      → J fs
      → J (P.create_dir (dir <> "/") fs).1
  pub archives :
      (username from hash : String) (fs : P.Files)
      → J fs
      → J (P.rename from (blob_base username <> ("/" <> hash)) fs).1
  pub removes : (path : String) (fs : P.Files) → J fs → J (P.remove_all path fs).1

module _ (P : Platform) (J : P.Files → Type 0) (K : IsKept P J) where
  pub record Guards {A : Type 0} (op : Op P A) : Type 0 where
    pub run : (w : World P) → J w.files → J (op w).1.files

  pure-Guards : {A : Type 0} (a : A) → Guards (pure a)
  pure-Guards a = record { run = λ w h. h }

  fail-Guards : {A : Type 0} (e : Error) → Guards {A = A} (fail e)
  fail-Guards e = record { run = λ w h. h }

  after-Guards :
      {A B : Type 0} (r : Result A × World P) (k : A → Op P B)
      → J r.1.files
      → ((a : A) → Guards (k a))
      → J (after r k).1.files
  after-Guards (ok a, v) k h next = (next a).run v h
  after-Guards (err e, v) k h next = h

  bind-Guards :
      {A B : Type 0} {m : Op P A} {k : A → Op P B}
      → Guards m
      → ((a : A) → Guards (k a))
      → Guards (m >>= k)
  bind-Guards {m = m} {k = k} h next = record { run = λ w j. after-Guards (m w) k (h.run w j) next }

  then-Guards :
      {B : Type 0} {m : Op P (Unit {0})} {k : Op P B} → Guards m → Guards k → Guards (m >> k)
  then-Guards h next = bind-Guards h (λ _. next)

  ignore-Guards : {A : Type 0} {m : Op P A} → Guards m → Guards (ignore m)
  ignore-Guards h = record { run = λ w j. h.run w j }

  require-Guards : (b : Bool) (e : Error) → Guards (require b e)
  require-Guards true e = record { run = λ w h. h }
  require-Guards false e = record { run = λ w h. h }

  if-Guards :
      {A : Type 0} (b : Bool) {m n : Op P A} → Guards m → Guards n → Guards (if b then m else n)
  if-Guards true h k = h
  if-Guards false h k = k

  query-Guards : {A : Type 0} (f : Db → A) → Guards (query P f)
  query-Guards f = record { run = λ w h. ground (arith, h) }

  commit-Guards : (o : Option Db) (w : World P) → J w.files → J (commit P o w).1.files
  commit-Guards none w h = h
  commit-Guards (some db) w h = h

  execute-Guards : (f : Db → Option Db) → Guards (execute P f)
  execute-Guards f = record {
    run = λ w h. elim (Option-cases (P.fault w.tick)) [
      | inl e ↦ rw (e, execute) (commit-Guards (f w.db) (record w { tick = w.tick + 1 }) h)
      | inr (message, e) ↦ rw (e, execute) h
    ];
  }

  fresh-Guards : Guards (fresh P)
  fresh-Guards = record { run = λ w h. h }

  inspect-Guards : {A : Type 0} (f : P.Files → Attempt A) → Guards (inspect P f)
  inspect-Guards f = record { run = λ w h. h }

  pub perform-Guards :
      (f : P.Files → Attempt (Unit {0}) × P.Files)
      → ((fs : P.Files) → J fs → J (f fs).1)
      → Guards (perform P f)
  perform-Guards f k = record { run = λ w h. k w.files h }

  still-Guards : {A : Type 0} {op : Op P A} → ((w : World P) → (op w).1.files ≡ w.files) → Guards op
  still-Guards e = record { run = λ w h. rw (e w) h }

  blob_parent-Guards :
      (username hash : String) → Guards (ensure_parent P (blob_base username <> ("/" <> hash)))
  blob_parent-Guards username hash = record {
    run = λ w h. elim (Option-cases (object_parent (blob_base username <> ("/" <> hash)))) [
      | inl e ↦ rw (e, ensure_parent) h
      | inr (dir, e) ↦ rw (e, ensure_parent) (K.makes username hash dir w.files e h)
    ];
  }

  user_id_of-Guards : (username : String) → Guards (user_id_of P username)
  unfolding user_id_of
  user_id_of-Guards username = bind-Guards (query-Guards _) found
    where
      found :
          (o : Option User)
          → Guards (elim o as (λ _. Op P String) [
            | none ↦ fail (database P.row_not_found)
            | some u ↦ pure u.id
          ])
      found none = fail-Guards (database P.row_not_found)
      found (some u) = pure-Guards u.id

  check_app_access-Guards : (username app : String) → Guards (check_app_access P username app)
  unfolding check_app_access
  check_app_access-Guards username app =
      if-Guards (username =s= "admin") (pure-Guards true)
        (bind-Guards (query-Guards (permissions app username)) (λ count. pure-Guards (ltb 0 count)))

  resolve_app_data-Guards :
      (username : String) (parts : List String) → Guards (resolve_app_data P username parts)
  unfolding resolve_app_data
  resolve_app_data-Guards username [] = pure-Guards _
  resolve_app_data-Guards username (x ∷ []) = pure-Guards _
  resolve_app_data-Guards username (x ∷ app ∷ rest) =
      bind-Guards (check_app_access-Guards username app)
        (λ allowed. then-Guards (require-Guards allowed _) (pure-Guards _))

  resolve_user-Guards : (parts : List String) → Guards (resolve_user P parts)
  unfolding resolve_user
  resolve_user-Guards [] = fail-Guards _
  resolve_user-Guards (x ∷ []) = fail-Guards _
  resolve_user-Guards (x ∷ owner ∷ rest) = pure-Guards _

  resolve_clean-Guards : (username path : String) → Guards (resolve_clean P username path)
  unfolding resolve_clean
  resolve_clean-Guards username path =
      if-Guards (starts_with path "/AppData/") (resolve_app_data-Guards username (path_parts path))
        (if-Guards (path =s= "/AppData") (pure-Guards _) (
          if-Guards (starts_with path "/System/" || path =s= "/System") (pure-Guards _) (
            if-Guards (starts_with path "/Trash/" || path =s= "/Trash")
              (still-Guards
                (λ w. ap (λ (v : World P). v.files) (resolve_trash_still P username path w)))
              (if-Guards (starts_with path "/User/") (resolve_user-Guards (path_parts path))
                (pure-Guards _)))))

  pub resolve-Guards : (username path : String) → Guards (resolve_opendal_path P username path)
  unfolding resolve_opendal_path
  resolve-Guards username path = resolve_clean-Guards username (normalize_path path)

  hash_and_archive_file-Guards :
      (username path : String) → Guards (hash_and_archive_file P username path)
  unfolding hash_and_archive_file
  hash_and_archive_file-Guards username path = bind-Guards (resolve-Guards username path) λ op_src.
      bind-Guards (inspect-Guards (P.stat op_src)) λ info.
        then-Guards (require-Guards info.is_file (bad_request "Not a file")) (
          bind-Guards (fresh-Guards) λ hash.
            let dest_path = blob_base username <> ("/" <> hash) in
            then-Guards (blob_parent-Guards username hash) (
              then-Guards
                (perform-Guards (P.rename op_src dest_path) (K.archives username op_src hash))
                (pure-Guards (hash, info.content_length))))

  current_time-Guards : Guards (current_time P)
  current_time-Guards = record { run = λ w h. h }

  upsert_trash_file_item-Guards :
      (username original_dir name mime hash : String) (size : ℕ)
      → Guards (upsert_trash_file_item P username original_dir name mime hash size)
  unfolding upsert_trash_file_item
  upsert_trash_file_item-Guards username original_dir name mime hash size =
      bind-Guards (user_id_of-Guards username) λ user_id. bind-Guards (fresh-Guards) λ id.
        bind-Guards current_time-Guards λ now.
          let t : TrashItem = record {
            id = id;
            user_id = user_id;
            name = name;
            original_dir = original_dir;
            is_dir = false;
            size = size;
            mime = mime;
            deleted_at = now;
            blob_hash = some hash;
          } in
          execute-Guards (insert_trash_item t)

  pub insert_trash_dir_item-Guards :
      (username original_dir name : String)
      → Guards (insert_trash_dir_item P username original_dir name)
  unfolding insert_trash_dir_item
  insert_trash_dir_item-Guards username original_dir name =
      bind-Guards (user_id_of-Guards username) λ user_id. bind-Guards (fresh-Guards) λ id.
        bind-Guards current_time-Guards λ now.
          let t : TrashItem = record {
            id = id;
            user_id = user_id;
            name = name;
            original_dir = original_dir;
            is_dir = true;
            size = 0;
            mime = "inode/directory";
            deleted_at = now;
            blob_hash = none;
          } in
          execute-Guards (insert_trash_or_skip t)

  trash_entry-Guards :
      (username curr : String) (stack : List String) (e : Entry)
      → Guards (trash_entry P username curr stack e)
  unfolding trash_entry
  trash_entry-Guards username curr stack e =
      if-Guards (is_empty e.name || e.name =s= ".") (pure-Guards stack) (
        if-Guards e.metadata.is_dir (pure-Guards (child_path curr e.name ∷ stack)) (
          bind-Guards (hash_and_archive_file-Guards username (child_path curr e.name)) λ archived.
            then-Guards
              (upsert_trash_file_item-Guards username (relative_to ("/User/" <> username) curr)
                e.name (P.mime e.name) archived.0 archived.1)
              (pure-Guards stack)))

  pub trash_entries-Guards :
      (username curr : String) (stack : List String) (es : List Entry)
      → Guards (trash_entries P username curr stack es)
  unfolding trash_entries
  trash_entries-Guards username curr stack [] = pure-Guards stack
  trash_entries-Guards username curr stack (e ∷ es) =
      bind-Guards (trash_entry-Guards username curr stack e)
        λ stack'. trash_entries-Guards username curr stack' es

  pub list_or_empty-Guards : (path : String) → Guards (list_or_empty P path)
  list_or_empty-Guards path = record { run = λ w h. ground (arith, h) }
