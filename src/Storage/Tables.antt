-- ===== src/Storage/Tables.antt =====
-- The statements of crates/storage/src/storage_service.rs on the tables, as functions of the rows.
-- An update that would break `UNIQUE(user_id, dir, name)` or the primary key gives `none`. The
-- constraint is checked on the rows that the statement leaves.
pub mod Like
pub mod Unique
use Prim.Native.String.{count}
use nasserver.Base.{
  ℕ, zero, suc, String, Bool, true, false, not, ◌&&◌, ◌||◌, Option, none, some, List, [], ◌∷◌, ◌++◌,
  keep, any, map, if◌then◌else◌, ◌==◌, code,
}
use nasserver.Base.Text.{◌<>◌, ◌=s=◌}
use nasserver.Storage.World.{CloudFile, TrashItem, Db}

-- SQL's LIKE: "%" stands for any text, "_" for any character, and a backslash makes the next
-- character of the pattern stand for itself.
like_any : (String → Bool) → String → Bool
like_any f String.[] = f ""
like_any f (String.◌∷◌ c s) = f (String.◌∷◌ c s) || like_any f s

-- The flag says that the pattern's next character stands for itself.
like_from : Bool → String → String → Bool
like_from literal String.[] String.[] = true
like_from literal String.[] (String.◌∷◌ c s) = false
like_from false (String.◌∷◌ d p) s =
    let rest = like_from false p in
    let escaped = like_from true p in
    if code d == b'%' then like_any rest s else if code d == b'\\' then escaped s else elim s [
      | String.[] ↦ false
      | String.◌∷◌ c s' ↦ (code d == b'_' || code c == code d) && rest s'
    ]
like_from true (String.◌∷◌ d p) s =
    let rest = like_from false p in
    elim s [ String.[] ↦ false | String.◌∷◌ c s' ↦ code c == code d && rest s' ]

-- `s like pattern`
unfoldable pub like : String → String → Bool
unfolding like_from like_any
like s pattern = like_from false pattern s

-- `substring(s from n + 1)`, by characters
unfoldable pub substring_from : ℕ → String → String
substring_from zero s = s
substring_from (suc n) String.[] = ""
substring_from (suc n) (String.◌∷◌ c s) = substring_from n s

-- The row of a user's file: `user_id = $1 and dir = $2 and name = $3`.
abbrev pub is_row : String → String → String → CloudFile → Bool
is_row user_id dir name f = f.user_id =s= user_id && (f.dir =s= dir && f.name =s= name)

-- A row with the same key or the same identifier.
abbrev pub clashes : CloudFile → CloudFile → Bool
clashes f g = g.id =s= f.id || is_row f.user_id f.dir f.name g

-- `insert into storage.cloud_files …`
unfoldable pub insert_cloud_file : CloudFile → Db → Option Db
insert_cloud_file f db =
    if any (clashes f) db.cloud_files
    then none
    else some (record db { cloud_files = f ∷ db.cloud_files })

-- `insert … on conflict do nothing`
unfoldable pub insert_or_skip : CloudFile → Db → Option Db
insert_or_skip f db =
    if any (clashes f) db.cloud_files
    then some db
    else some (record db { cloud_files = f ∷ db.cloud_files })

-- The update of the rows that a test holds of.
abbrev pub update_where :
    (CloudFile → Bool) → (CloudFile → CloudFile) → List CloudFile → List CloudFile
update_where p change [] = []
update_where p change (g ∷ gs) = (if p g then change g else g) ∷ update_where p change gs

-- `insert … on conflict (user_id, dir, name) do update set …`
unfoldable pub upsert_cloud_file : CloudFile → (CloudFile → CloudFile) → Db → Option Db
upsert_cloud_file f change db =
    if any (is_row f.user_id f.dir f.name) db.cloud_files
    then some (record db {
      cloud_files = update_where (is_row f.user_id f.dir f.name) change db.cloud_files;
    })
    else if any (λ (g : CloudFile). g.id =s= f.id) db.cloud_files
    then none
    else some (record db { cloud_files = f ∷ db.cloud_files })

-- `do update set size = EXCLUDED.size, mime = EXCLUDED.mime, storage = EXCLUDED.storage`
abbrev pub set_content : CloudFile → CloudFile → CloudFile
set_content f g = record g { size = f.size; mime = f.mime; storage = f.storage }

-- `do update set size = EXCLUDED.size, mime = EXCLUDED.mime`
abbrev pub set_size_mime : CloudFile → CloudFile → CloudFile
set_size_mime f g = record g { size = f.size; mime = f.mime }

-- `delete from storage.cloud_files where …`
unfoldable pub delete_cloud_files : (CloudFile → Bool) → Db → Option Db
delete_cloud_files p db =
    some (record db { cloud_files = keep (λ (g : CloudFile). not (p g)) db.cloud_files })

-- No two rows have one key.
unfoldable pub keys_unique : List CloudFile → Bool
keys_unique [] = true
keys_unique (f ∷ fs) = not (any (is_row f.user_id f.dir f.name) fs) && keys_unique fs

-- `update storage.cloud_files set … where …`
unfoldable pub update_cloud_files : (CloudFile → Bool) → (CloudFile → CloudFile) → Db → Option Db
unfolding keys_unique
update_cloud_files p change db =
    let rows = update_where p change db.cloud_files in
    if keys_unique rows then some (record db { cloud_files = rows }) else none

-- `insert into storage.trash_items …`: only the identifier is unique.
unfoldable pub insert_trash_item : TrashItem → Db → Option Db
insert_trash_item t db =
    if any (λ (u : TrashItem). u.id =s= t.id) db.trash_items
    then none
    else some (record db { trash_items = t ∷ db.trash_items })

-- The same with `on conflict do nothing`.
unfoldable pub insert_trash_or_skip : TrashItem → Db → Option Db
insert_trash_or_skip t db =
    if any (λ (u : TrashItem). u.id =s= t.id) db.trash_items
    then some db
    else some (record db { trash_items = t ∷ db.trash_items })

-- `delete from storage.trash_items where …`
unfoldable pub delete_trash_items : (TrashItem → Bool) → Db → Option Db
delete_trash_items p db =
    some (record db { trash_items = keep (λ (t : TrashItem). not (p t)) db.trash_items })
