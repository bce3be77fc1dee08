-- ===== src/Storage/Tests/Tables.antt =====
-- The theorems about the tables of the storage service, applied to the small installation.
use nasserver.Base.{ℕ, String}
use nasserver.Storage.Save.{save_file}
use nasserver.Storage.Tables.{keys_unique}
use nasserver.Storage.Tables.Unique.{IsUnique}
use nasserver.Storage.Sample.{platform, start}
use nasserver.Base.{◌≡◌, refl, true, false, [], ◌∷◌, some, find, length}
use nasserver.Base.Text.{◌=s=◌, starts_with, split, join, replace_char, strip_prefix}
use nasserver.Domain.{ok}
use nasserver.Storage.World.{User, CloudFile, World}
use nasserver.Storage.Paths.{normalize_path, normal_parts, is_kept, path_parts, object_parent}
use nasserver.Storage.Access.{user_id_of, resolve_opendal_path, resolve_clean, resolve_user}
use nasserver.Storage.Tables.{is_row, upsert_cloud_file}
use nasserver.Storage.Save.{may_act, write_target, record_file}
use nasserver.Storage.Save.Records.{IsOwner, save_file-Records}

start-IsUnique : IsUnique start.db
unfolding keys_unique
start-IsUnique = refl

abbrev saved_world : World platform
saved_world = (save_file platform "bob" "/User/bob" "x" (1 ∷ 2 ∷ []) start).1

saves : save_file platform "bob" "/User/bob" "x" (1 ∷ 2 ∷ []) start ≡ (ok tt, saved_world)
unfolding save_file write_target record_file user_id_of resolve_opendal_path resolve_clean
    resolve_user upsert_cloud_file normalize_path normal_parts is_kept path_parts split join
    starts_with replace_char strip_prefix object_parent
saves = refl

bob_outside : starts_with (normalize_path "/User/bob") "/AppData" ≡ false
unfolding starts_with normalize_path normal_parts is_kept split join replace_char
bob_outside = refl

save_file-Records_example :
    (target : String) × IsOwner platform target (normalize_path "/User/bob")
    × (may_act "bob" target ≡ true)
    × (user : User) × (g : CloudFile) × (find
          (λ (x : User). x.username =s= target)
          saved_world.db.users
        ≡ some user)
    × (find (is_row user.id (normalize_path "/User/bob") "x") saved_world.db.cloud_files ≡ some g)
    × (g.size ≡ length {A = ℕ} (1 ∷ 2 ∷ []))
    × (g.mime ≡ platform.mime "x")
    × (g.storage ≡ "file")
save_file-Records_example =
    save_file-Records platform "bob" "/User/bob" "x" (1 ∷ 2 ∷ []) start saved_world tt bob_outside
      saves
