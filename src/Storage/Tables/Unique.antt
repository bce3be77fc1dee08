-- ===== src/Storage/Tables/Unique.antt =====
-- The statements keep the keys of `storage.cloud_files` unique.
use nasserver.Base.{
  String, ◌≡◌, refl, Bool, true, false, not, List, [], ◌∷◌, arith, any, keep, some,
}
use nasserver.Storage.World.{CloudFile, Db}
use nasserver.Storage.Tables.{
  is_row, clashes, keys_unique, insert_cloud_file, insert_or_skip, upsert_cloud_file, update_where,
  delete_cloud_files, update_cloud_files,
}

any-keep :
    (p q : CloudFile → Bool) (fs : List CloudFile) → any p fs ≡ false → any p (keep q fs) ≡ false
any-keep p q [] h = refl
any-keep p q (f ∷ fs) h = ground (arith, any-keep p q fs)

keep_unique :
    (q : CloudFile → Bool) (fs : List CloudFile)
    → keys_unique fs ≡ true
    → keys_unique (keep q fs) ≡ true
unfolding keys_unique
keep_unique q [] h = refl
keep_unique q (f ∷ fs) h =
    ground (arith, keep_unique q fs, any-keep (is_row f.user_id f.dir f.name) q fs)

any-clashes :
    (f : CloudFile) (fs : List CloudFile)
    → any (clashes f) fs ≡ false
    → any (is_row f.user_id f.dir f.name) fs ≡ false
any-clashes f [] h = refl
any-clashes f (g ∷ gs) h = ground (arith, any-clashes f gs)

-- A change of the rows that leaves their keys.
abbrev pub KeepsKey : (CloudFile → CloudFile) → Type 0
KeepsKey change =
    (g : CloudFile)
    → ((change g).user_id ≡ g.user_id) × ((change g).dir ≡ g.dir) × ((change g).name ≡ g.name)

module _ (p : CloudFile → Bool) (change : CloudFile → CloudFile) (same : KeepsKey change) where
  any-update :
      (user_id dir name : String) (fs : List CloudFile)
      → any (is_row user_id dir name) (update_where p change fs) ≡ any (is_row user_id dir name) fs
  any-update user_id dir name [] = refl
  any-update user_id dir name (f ∷ fs) = ground (arith, any-update user_id dir name fs, same f)

  update_unique : (fs : List CloudFile) → keys_unique (update_where p change fs) ≡ keys_unique fs
  unfolding keys_unique
  update_unique [] = refl
  update_unique (f ∷ fs) =
      ground (arith, update_unique fs, same f, any-update f.user_id f.dir f.name fs)

-- The key is unique in the table.
abbrev pub IsUnique : Db → Type 0
IsUnique db = keys_unique db.cloud_files ≡ true

pub insert-IsUnique :
    (f : CloudFile) (db db' : Db) → insert_cloud_file f db ≡ some db' → IsUnique db → IsUnique db'
unfolding insert_cloud_file keys_unique
insert-IsUnique f db db' e h = ground (arith, any-clashes f db.cloud_files)

pub insert_or_skip-IsUnique :
    (f : CloudFile) (db db' : Db) → insert_or_skip f db ≡ some db' → IsUnique db → IsUnique db'
unfolding insert_or_skip keys_unique
insert_or_skip-IsUnique f db db' e h = ground (arith, any-clashes f db.cloud_files)

pub upsert-IsUnique :
    (f : CloudFile) (change : CloudFile → CloudFile) (db db' : Db)
    → KeepsKey change
    → upsert_cloud_file f change db ≡ some db'
    → IsUnique db
    → IsUnique db'
unfolding upsert_cloud_file keys_unique
upsert-IsUnique f change db db' same e h =
    ground (arith, update_unique (is_row f.user_id f.dir f.name) change same db.cloud_files)

pub delete-IsUnique :
    (p : CloudFile → Bool) (db db' : Db)
    → delete_cloud_files p db ≡ some db'
    → IsUnique db
    → IsUnique db'
unfolding delete_cloud_files
delete-IsUnique p db db' e h =
    ground (arith, keep_unique (λ (g : CloudFile). not (p g)) db.cloud_files)

pub update-IsUnique :
    (p : CloudFile → Bool) (change : CloudFile → CloudFile) (db db' : Db)
    → update_cloud_files p change db ≡ some db'
    → IsUnique db'
unfolding update_cloud_files
update-IsUnique p change db db' e = ground arith
