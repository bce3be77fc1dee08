-- ===== src/Api/Tests.antt =====
-- A request that uploads into the directory of another user.
use nasserver.Base.{ℕ, String, refl, Option, none, some, [], ◌∷◌}
use nasserver.Domain.{done}
use nasserver.Storage.Paths.{normal_parts, is_kept}
use nasserver.Storage.World.{Bytes}
use nasserver.Storage.Sample.{platform, start}
use nasserver.Storage.Isolation.UserPaths.{IsUserPath}
use nasserver.Base.Text.{split, replace_char}
use nasserver.Api.{
  Field, Multipart, upload_file, post_mkdir, post_delete, get_download, post_rename,
}
use nasserver.Api.Foreign.{IsForbidden, foreign-IsForbidden}

abbrev path_field : Field
path_field = record { name = some "path"; file_name = none; bytes = done (1 ∷ []) }

abbrev file_field : Field
file_field = record { name = some "file"; file_name = some "x"; bytes = done (2 ∷ 3 ∷ []) }

abbrev multipart : Multipart
multipart = record { fields = path_field ∷ file_field ∷ []; error = none }

abbrev from_utf8 : Bytes → Option String
from_utf8 bytes = some "/User/ann/x"

ann_dir : IsUserPath "ann" ("x" ∷ []) "/User/ann/x"
unfolding normal_parts is_kept split replace_char
ann_dir = refl

ann_target : IsUserPath "ann" ("y" ∷ []) "/User/ann/y"
unfolding normal_parts is_kept split replace_char
ann_target = refl

foreign-IsForbidden_example :
    IsForbidden {P = platform} (upload_file platform from_utf8 "bob" none multipart) start
    × IsForbidden {P = platform} (post_mkdir platform "bob" "/User/ann/x") start
    × ((fuel : ℕ)
        → IsForbidden {P = platform} (post_delete platform fuel "bob" (some "/User/ann/x")) start)
    × IsForbidden {P = platform} (get_download platform "bob" (some "/User/ann/x")) start
    × IsForbidden {P = platform}
        (post_rename platform "bob" (some "/User/ann/x") (some "/User/ann/y"))
        start
foreign-IsForbidden_example =
    foreign-IsForbidden platform from_utf8 "bob" "ann" "/User/ann/x" "/User/ann/y" ("x" ∷ [])
      ("y" ∷ []) none multipart start ann_dir ann_target refl refl
