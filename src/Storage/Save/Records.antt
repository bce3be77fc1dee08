-- ===== src/Storage/Save/Records.antt =====
-- The row that a successful `save_file` of crates/storage/src/storage_service.rs leaves.
use nasserver.Base.{
  ◌⊎◌, ℕ, String, ◌≡◌, refl, sym, ap, ◌∙◌, Bool, true, false, Option, some, List, [], ◌∷◌, arith,
  any, find, length, Option-cases, Bool-cases, inl, inr,
}
use nasserver.Base.Text.{◌<>◌, ◌=s=◌, eq_refl, starts_with}
use nasserver.Domain.{forbidden, Result, ok, pure, require, ◌>>=◌, >>=-eq-ok}
use nasserver.Storage.World.{
  User, CloudFile, Db, Bytes, Platform, World, Op, query, execute, fresh, perform,
}
use nasserver.Storage.Paths.{normalize_path, path_parts}
use nasserver.Storage.Tables.{is_row, update_where, upsert_cloud_file, set_content}
use nasserver.Storage.Access.{user_id_of, resolve_opendal_path}
use nasserver.Storage.Save.{may_act, ensure_parent, write_target, record_file, save_file}

-- A row holds the content of another.
abbrev pub HasContent : CloudFile → CloudFile → Type 0
HasContent f g = (g.size ≡ f.size) × (g.mime ≡ f.mime) × (g.storage ≡ f.storage)

find-update_where :
    (f : CloudFile) (fs : List CloudFile)
    → any (is_row f.user_id f.dir f.name) fs ≡ true
    → (g : CloudFile) × (find
          (is_row f.user_id f.dir f.name)
          (update_where (is_row f.user_id f.dir f.name) (set_content f) fs)
        ≡ some g)
      × HasContent f g
find-update_where f [] h = cc
find-update_where f (g ∷ gs) h = elim (Bool-cases (is_row f.user_id f.dir f.name g)) [
  | inl e ↦ (set_content f g, ground arith, (refl, refl, refl))
  | inr e ↦ let (x, found, same) = find-update_where f gs (ground arith) in (x, ground arith, same)
]

find-upsert :
    (f : CloudFile) (db db' : Db)
    → upsert_cloud_file f (set_content f) db ≡ some db'
    → (g : CloudFile) × (find (is_row f.user_id f.dir f.name) db'.cloud_files ≡ some g)
      × HasContent f g
      × (db'.users ≡ db.users)
unfolding upsert_cloud_file
find-upsert f db db' e = elim (Bool-cases (any (is_row f.user_id f.dir f.name) db.cloud_files)) [
  | inl h ↦
      let (g, found, same) = find-update_where f db.cloud_files h in
      let rows : update_where (is_row f.user_id f.dir f.name) (set_content f) db.cloud_files
          ≡ db'.cloud_files =
        ground arith in
      (g, rw (← rows) found, same, ground arith)
  | inr h ↦
      let rows : f ∷ db.cloud_files ≡ db'.cloud_files = ground arith in
      (
        f,
        rw (← rows) (ground (arith, eq_refl f.user_id, eq_refl f.dir, eq_refl f.name)),
        (refl, refl, refl),
        ground arith,
      )
]

module _ (P : Platform) where
  query-ok :
      {A : Type 0} (f : Db → A) (w v : World P) (a : A)
      → query P f w ≡ (ok a, v)
      → (f w.db ≡ a) × (v.db ≡ w.db)
  query-ok f w v a e = elim (Option-cases (P.fault w.tick)) [
    | inl h ↦ ground arith
    | inr (message, h) ↦ ground arith
  ]

  execute-ok :
      (f : Db → Option Db) (w v : World P) (u : Unit {0})
      → execute P f w ≡ (ok u, v)
      → f w.db ≡ some v.db
  execute-ok f w v u e = elim (Option-cases (P.fault w.tick)) [
    | inl h ↦ elim (Option-cases (f w.db)) [
      | inl none_left ↦ absurd (ground arith)
      | inr (db, left) ↦ ground arith
    ]
    | inr (message, h) ↦ absurd (ground arith)
  ]

  user_id_of-ok :
      (target uid : String) (w v : World P)
      → user_id_of P target w ≡ (ok uid, v)
      → (user : User) × (find (λ (u : User). u.username =s= target) w.db.users ≡ some user)
        × (user.id ≡ uid)
        × (v.db ≡ w.db)
  unfolding user_id_of
  user_id_of-ok target uid w v e =
      let (found, w1, asked, rest) =
        >>=-eq-ok (query P (λ db. find (λ (u : User). u.username =s= target) db.users)) _ w e in
      let (same, still) =
        query-ok (λ db. find (λ (u : User). u.username =s= target) db.users) w w1 found asked in
      elim (Option-cases found) [
        | inl h ↦ absurd (ground (arith, rw h at rest))
        | inr (user, h) ↦
            let answer : (pure {W = World P} user.id w1 ≡ (ok uid, v)) = rw h at rest in
            let uid_same : user.id ≡ uid = ground arith in
            let db_same : w1.db ≡ v.db = ground arith in
            (user, same ∙ h, uid_same, sym db_same ∙ still)
      ]

  fresh-ok : (id : String) (w v : World P) → fresh P w ≡ (ok id, v) → v.db ≡ w.db
  fresh-ok id w v e = ap (λ (r : Result String × World P). r.1.db) (sym e)

  abbrev saved : (target_id dir name : String) (size : ℕ) (id : String) → CloudFile
  saved target_id dir name size id = record {
    id = id;
    user_id = target_id;
    name = name;
    dir = dir;
    size = size;
    mime = P.mime name;
    storage = "file";
  }

  abbrev insert_saved : (dir name : String) (size : ℕ) (uid id : String) → Op P (Unit {0})
  insert_saved dir name size uid id =
      let f = saved uid dir name size id in execute P (upsert_cloud_file f (set_content f))

  -- The row that `record_file` writes.
  record_file-Records :
      (target dir name : String) (size : ℕ) (w v : World P) (u : Unit {0})
      → record_file P target dir name size w ≡ (ok u, v)
      → (user : User) × (g : CloudFile) × (find (λ (x : User). x.username =s= target) v.db.users
          ≡ some user)
        × (find (is_row user.id dir name) v.db.cloud_files ≡ some g)
        × (g.size ≡ size)
        × (g.mime ≡ P.mime name)
        × (g.storage ≡ "file")
  unfolding record_file
  record_file-Records target dir name size w v u e =
      let (uid, w1, asked, rest) =
        >>=-eq-ok (user_id_of P target) (λ x. fresh P >>= insert_saved dir name size x) w e in
      let (id, w2, made, written) = >>=-eq-ok (fresh P) (insert_saved dir name size uid) w1 rest in
      let (user, found, uid_same, still) = user_id_of-ok target uid w w1 asked in
      let f = saved uid dir name size id in
      let stored = execute-ok (upsert_cloud_file f (set_content f)) w2 v u written in
      let (g, row, content, users) = find-upsert f w2.db v.db stored in
      let same_users : v.db.users ≡ w.db.users =
        users ∙ ap (λ (d : Db). d.users) (fresh-ok id w1 w2 made ∙ still) in
      (user, g, rw same_users found, rw uid_same row, content.0, content.1, content.2)

  -- Whom a path below "/System" or "/User" belongs to.
  abbrev pub IsOwner : String → String → Type 0
  IsOwner owner path =
      ((starts_with path "/System" ≡ true) × (owner ≡ "admin"))
      ⊎ ((starts_with path "/User/" ≡ true)
          × ((root : String) × (rest : List String) × (path_parts path ≡ root ∷ owner ∷ rest)))

  owner-cases :
      (parts : List String)
      → ((root owner : String) × (rest : List String) × (parts ≡ root ∷ owner ∷ rest))
        ⊎ ((parts ≡ []) ⊎ ((root : String) × (parts ≡ root ∷ [])))
  owner-cases [] = inr (inl refl)
  owner-cases (root ∷ []) = inr (inr (root, refl))
  owner-cases (root ∷ owner ∷ rest) = inl (root, owner, rest, refl)

  write_target-IsOwner :
      (username path target : String) (w v : World P)
      → write_target P username path w ≡ (ok target, v)
      → IsOwner target path
  unfolding write_target
  write_target-IsOwner username path target w v h = elim (Bool-cases (starts_with path "/System")) [
    | inl e ↦ elim (Bool-cases (username =s= "admin")) [
      | inl f ↦ inl (e, ground arith)
      | inr f ↦ absurd (ground arith)
    ]
    | inr e ↦ elim (Bool-cases (starts_with path "/User/")) [
      | inr f ↦ absurd (ground arith)
      | inl f ↦ elim (owner-cases (path_parts path)) [
        | inl (root, owner, rest, g) ↦
            let found : (pure {W = World P} owner w ≡ (ok target, v)) = rw (e, f, g) at h in
            inr (f, (root, rest, g ∙ ap (λ o. root ∷ o ∷ rest) (ground arith)))
        | inr k ↦ absurd (elim k [
          | inl g ↦ ground (arith, rw (e, f, g) at h)
          | inr (root, g) ↦ ground (arith, rw (e, f, g) at h)
        ])
      ]
    ]
  ]

  -- Saving that succeeds outside "/AppData" was allowed: the directory is in "/User/<owner>" for an owner
  -- who is the user, or for any owner where the user is admin, or it is in "/System" and the user is admin,
  -- who is the owner there. It leaves a row of the owner's with the directory in its normal form and the
  -- name, that holds the number of bytes, the guessed mime type and the kind "file".
  pub save_file-Records :
      (username virtual_path name : String) (bytes : Bytes) (w v : World P) (u : Unit {0})
      → starts_with (normalize_path virtual_path) "/AppData" ≡ false
      → save_file P username virtual_path name bytes w ≡ (ok u, v)
      → (target : String) × IsOwner target (normalize_path virtual_path)
        × (may_act username target ≡ true)
        × (user : User) × (g : CloudFile) × (find (λ (x : User). x.username =s= target) v.db.users
            ≡ some user)
        × (find (is_row user.id (normalize_path virtual_path) name) v.db.cloud_files ≡ some g)
        × (g.size ≡ length bytes)
        × (g.mime ≡ P.mime name)
        × (g.storage ≡ "file")
  unfolding save_file
  save_file-Records username virtual_path name bytes w v u outside e =
      let dir = normalize_path virtual_path in
      let (target, w1, e1, r1) = >>=-eq-ok (write_target P username dir) _ w (rw outside at e) in
      let (u1, w2, e2, r2) =
        >>=-eq-ok (require (may_act username target) (forbidden "Access denied")) _ w1 r1 in
      let (op_path, w3, e3, r3) = >>=-eq-ok (resolve_opendal_path P target dir) _ w2 r2 in
      let full_op_path = op_path <> ("/" <> name) in
      let (u4, w4, e4, r4) = >>=-eq-ok (ensure_parent P full_op_path) _ w3 r3 in
      let (u5, w5, e5, r5) = >>=-eq-ok (perform P (P.write full_op_path bytes)) _ w4 r4 in
      let (user, g, q1, q2, q3, q4, q5) =
        record_file-Records target dir name (length bytes) w5 v u r5 in
      (
        target,
        write_target-IsOwner username dir target w w1 e1,
        allowed (may_act username target) w1 w2 u1 e2,
        user,
        g,
        q1,
        q2,
        q3,
        q4,
        q5,
      )
    where
      allowed :
          (b : Bool) (x y : World P) (t : Unit {0})
          → require b (forbidden "Access denied") x ≡ (ok t, y)
          → b ≡ true
      allowed true x y t h = refl
      allowed false x y t h = cc
