-- ===== src/Storage/Delete/Subtree.antt =====
-- The rows that the statements on a subtree touch, in `delete`, in `rename` and in the trash of
-- crates/storage/src/storage_service.rs.
use nasserver.Base.{String, Bool, ◌||◌}
use nasserver.Base.Text.{◌<>◌, ◌=s=◌, starts_with}

-- The directory itself, or one below it.
abbrev pub lies_in : String → String → Bool
lies_in path dir = dir =s= path || starts_with dir (path <> "/")
