-- ===== src/Storage/Access/Reads.antt =====
-- `resolve_opendal_path` of crates/storage/src/storage_service.rs on "/Trash" only reads.
use nasserver.Base.{String, ◌≡◌, refl, List, [], ◌∷◌, arith}
use nasserver.Storage.World.{Platform, World}
use nasserver.Storage.Access.{choose_match, resolve_trash}

module _ (P : Platform) where
  choose_match_still :
      (base rel : String) (ms : List String) (w : World P) → (choose_match P base rel ms w).1 ≡ w
  unfolding choose_match
  choose_match_still base rel [] w = refl
  choose_match_still base rel (m ∷ []) w = refl
  choose_match_still base rel (m ∷ n ∷ ms) w = refl

  -- Resolving a path of the trash leaves the world as it was.
  pub resolve_trash_still :
      (username clean_path : String) (w : World P) → (resolve_trash P username clean_path w).1 ≡ w
  unfolding resolve_trash
  resolve_trash_still username clean_path w = grind (arith, choose_match_still)
