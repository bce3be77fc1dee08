-- ===== src/Storage/Purge.antt =====
-- `run_trash_purger` of crates/storage/src/storage_service.rs: one round of its endless loop.
use nasserver.Base.{ℕ, ◌+◌, String, Bool, none, some, List, [], ◌∷◌, find, ltb, if◌then◌else◌}
use nasserver.Base.Text.{◌=s=◌}
use nasserver.Domain.{ok, err, pure, ignore, ◌>>=◌, ◌>>◌}
use nasserver.Storage.World.{User, TrashItem, Platform, Op, query, execute}
use nasserver.Storage.Tables.{delete_trash_items}
use nasserver.Storage.Trash.{drop_blob, current_time}

-- `INTERVAL '30 days'`, in seconds
abbrev pub thirty_days : ℕ
thirty_days = 2_592_000

abbrev pub is_expired : ℕ → TrashItem → Bool
is_expired now t = ltb (t.deleted_at + thirty_days) now

-- The join of `storage.trash_items` with `sys.users`, of the expired items.
unfoldable pub expired_rows : ℕ → List User → List TrashItem → List (TrashItem × String)
expired_rows now users [] = []
expired_rows now users (t ∷ ts) =
    let rest = expired_rows now users ts in
    if is_expired now t
    then elim (find (λ (u : User). u.id =s= t.user_id) users) [
      | none ↦ rest
      | some u ↦ (t, u.username) ∷ rest
    ]
    else rest

module _ (P : Platform) where
  unfoldable pub purge_rows : List (TrashItem × String) → Op P (Unit {0})
  purge_rows [] = pure tt
  purge_rows ((t, username) ∷ rows) = do
    if t.is_dir then pure tt else drop_blob P username t.blob_hash
    ignore (execute P (delete_trash_items (λ (u : TrashItem). u.id =s= t.id)))
    purge_rows rows

  -- `.await.unwrap_or_default()`
  abbrev pub rows_or_none : Op P (List (TrashItem × String)) → Op P (List (TrashItem × String))
  rows_or_none m w =
      let (answer, v) = m w in elim answer [ ok rows ↦ (ok rows, v) | err e ↦ (ok [], v) ]

  unfoldable pub purge : Op P (Unit {0})
  purge = do
    now ← current_time P
    rows ← rows_or_none (query P (λ db. expired_rows now db.users db.trash_items))
    purge_rows rows
