-- ===== src/Storage/Delete/Ends.antt =====
-- The loop of trash_directory_recursive in crates/storage/src/storage_service.rs ends where the
-- object store lists a finite tree.
use nasserver.Base.{
  Option, none, some, All, true, ℕ, zero, suc, ◌+◌, ◌≤◌, ◌<◌, String, ◌≡◌, ap, ◌≢◌, Bool, false,
  ◌||◌, List, [], ◌∷◌, if◌then◌else◌, arith, Bool-cases, inl, inr,
}
use nasserver.Base.Text.{◌<>◌, ◌=s=◌, is_empty, ends_with_char}
use nasserver.Domain.{
  ok, done, failed, Result-cases, Attempt-cases, pure, expect, ignore, ◌>>=◌, ◌>>◌, >>=-eq-ok,
  bad_request,
}
use mathlib.Core.Path.{subst}
use nasserver.Storage.Delete.Kept.{
  IsKept, Guards, resolve-Guards, insert_trash_dir_item-Guards, trash_entries-Guards,
  list_or_empty-Guards,
}
use nasserver.Storage.Paths.{file_name, parent}
use nasserver.Storage.World.{Entry, Platform, World, Op, perform}
use nasserver.Storage.Folders.{child_path}
use nasserver.Storage.Access.{resolve_opendal_path}
use nasserver.Storage.Trash.{
  relative_to, relative_parent, hash_and_archive_file, upsert_trash_file_item,
  insert_trash_dir_item, trash_entry, trash_entries, list_or_empty, trash_round, trash_directories,
}

-- Is the entry a directory below the one that is listed?
abbrev pub is_child : Entry → Bool
is_child e = if is_empty e.name || e.name =s= "." then false else e.metadata.is_dir

-- The weights of the directories in a listing, and of those on the stack.
abbrev pub listed_weight : (String → ℕ) → String → List Entry → ℕ
listed_weight weight curr [] = 0
listed_weight weight curr (e ∷ es) =
    (if is_child e then weight (child_path curr e.name) else 0) + listed_weight weight curr es

abbrev pub total : (String → ℕ) → List String → ℕ
total weight [] = 0
total weight (path ∷ stack) = weight path + total weight stack

-- The listing that a round goes over.
abbrev pub listing : (P : Platform) → String → P.Files → List Entry
listing P src files = elim (P.list (if ends_with_char b'/' src then src else src <> "/") files) [
  | done es ↦ es
  | failed message ↦ []
]

-- The directories in a listing lie in the tree.
abbrev pub ListsInside : (String → Type 0) → String → List Entry → Type 0
ListsInside Inside curr = All (λ e. is_child e ≡ true → Inside (child_path curr e.name))

-- `Inside` is a set of directories, and `J` a property of the object store that trashing keeps, under which
-- the set is a finite tree: what is listed in one of the directories lies in the set, and every directory
-- weighs more than the directories that are listed in it together.
pub record IsFinite (P : Platform) (J : P.Files → Type 0) (Inside : String → Type 0)
    (username : String) (weight : String → ℕ) : Type 0 where
  pub kept : IsKept P J
  pub positive : (path : String) → 0 < weight path
  pub closed :
      (curr src : String) (w v : World P)
      → Inside curr
      → J v.files
      → resolve_opendal_path P username curr w ≡ (ok src, v)
      → ListsInside Inside curr (listing P src v.files)
  pub shrinks :
      (curr src : String) (w v : World P)
      → Inside curr
      → J v.files
      → resolve_opendal_path P username curr w ≡ (ok src, v)
      → listed_weight weight curr (listing P src v.files) < weight curr

module _ (P : Platform) (J : P.Files → Type 0) (Inside : String → Type 0) (username : String)
    (weight : String → ℕ) (F : IsFinite P J Inside username weight) where
  -- A file goes into the trash, and the stack stays as it is.
  abbrev archive : String → List String → Entry → Op P (List String)
  archive curr stack e = do
    (hash, size) ← hash_and_archive_file P username (child_path curr e.name)
    upsert_trash_file_item P username (relative_to ("/User/" <> username) curr) e.name
        (P.mime e.name) hash size
    pure stack

  archived_stack :
      (curr : String) (stack stack' : List String) (e : Entry) (w w' : World P)
      → archive curr stack e w ≡ (ok stack', w')
      → stack ≡ stack'
  archived_stack curr stack stack' e w w' h =
      let (archived, v, _, rest) =
        >>=-eq-ok (hash_and_archive_file P username (child_path curr e.name))
          (λ found.
            upsert_trash_file_item P username (relative_to ("/User/" <> username) curr) e.name
              (P.mime e.name) found.0 found.1
            >> pure stack)
          w h in
      let (_, u, _, last) =
        >>=-eq-ok
          (upsert_trash_file_item P username (relative_to ("/User/" <> username) curr) e.name
            (P.mime e.name) archived.0 archived.1)
          (λ _. pure stack) v rest in
      ground arith

  archived_total :
      (curr : String) (stack stack' : List String) (e : Entry) (w w' : World P)
      → is_child e ≡ false
      → archive curr stack e w ≡ (ok stack', w')
      → total weight stack'
        ≡ total weight stack + (if is_child e then weight (child_path curr e.name) else 0)
  archived_total curr stack stack' e w w' leaf h =
      let same = archived_stack curr stack stack' e w w' h in ground arith

  kept_by :
      {A : Type 0} (op : Op P A) (w v : World P) (a : A)
      → Guards P J F.kept op
      → op w ≡ (ok a, v)
      → J w.files
      → J v.files
  kept_by op w v a g e j = subst (λ r. J r.1.files) e (g.run w j)

  expect-world :
      (o : Option String) (a : String) (w v : World P)
      → expect o (bad_request "Invalid path") w ≡ (ok a, v)
      → w ≡ v
  expect-world none a w v e = absurd (ground arith)
  expect-world (some b) a w v e = ap (λ r. r.1) e

  trash_entry-total :
      (curr : String) (stack stack' : List String) (e : Entry) (w w' : World P)
      → trash_entry P username curr stack e w ≡ (ok stack', w')
      → total weight stack'
        ≡ total weight stack + (if is_child e then weight (child_path curr e.name) else 0)
  unfolding trash_entry
  trash_entry-total curr stack stack' e w w' h =
      elim (Bool-cases (is_empty e.name || e.name =s= ".")) [
        | inl skip ↦ ground arith
        | inr name ↦ elim (Bool-cases e.metadata.is_dir) [
          | inl dir ↦ ground arith
          | inr leaf ↦ archived_total curr stack stack' e w w' (ground arith) (ground arith)
        ]
      ]

  trash_entries-total :
      (curr : String) (stack stack' : List String) (es : List Entry) (w w' : World P)
      → trash_entries P username curr stack es w ≡ (ok stack', w')
      → total weight stack' ≡ total weight stack + listed_weight weight curr es
  unfolding trash_entries
  trash_entries-total curr stack stack' [] w w' h = ground arith
  trash_entries-total curr stack stack' (e ∷ es) w w' h =
      let (middle, v, first, rest) =
        >>=-eq-ok (trash_entry P username curr stack e) (λ s. trash_entries P username curr s es) w
          h in
      omega (
        arith,
        trash_entry-total curr stack middle e w v first,
        trash_entries-total curr middle stack' es v w' rest,
      )

  trash_entry-Inside :
      (curr : String) (stack stack' : List String) (e : Entry) (w w' : World P)
      → trash_entry P username curr stack e w ≡ (ok stack', w')
      → (is_child e ≡ true → Inside (child_path curr e.name))
      → All Inside stack
      → All Inside stack'
  unfolding trash_entry
  trash_entry-Inside curr stack stack' e w w' h child inside =
      elim (Bool-cases (is_empty e.name || e.name =s= ".")) [
        | inl skip ↦ let same : stack ≡ stack' = ground arith in subst (All Inside) same inside
        | inr name ↦ elim (Bool-cases e.metadata.is_dir) [
          | inl dir ↦
              let pushed : child_path curr e.name ∷ stack ≡ stack' = ground arith in
              subst (All Inside) pushed (child (ground arith), inside)
          | inr leaf ↦
              let same = archived_stack curr stack stack' e w w' (ground arith) in
              subst (All Inside) same inside
        ]
      ]

  trash_entries-Inside :
      (curr : String) (stack stack' : List String) (es : List Entry) (w w' : World P)
      → trash_entries P username curr stack es w ≡ (ok stack', w')
      → ListsInside Inside curr es
      → All Inside stack
      → All Inside stack'
  unfolding trash_entries
  trash_entries-Inside curr stack stack' [] w w' h tt inside =
      let same : stack ≡ stack' = ground arith in subst (All Inside) same inside
  trash_entries-Inside curr stack stack' (e ∷ es) w w' h (child, children) inside =
      let (middle, v, first, rest) =
        >>=-eq-ok (trash_entry P username curr stack e) (λ s. trash_entries P username curr s es) w
          h in
      trash_entries-Inside curr middle stack' es v w' rest children
        (trash_entry-Inside curr stack middle e w v first child inside)

  list_or_empty-listing :
      (src : String) (es : List Entry) (w v : World P)
      → list_or_empty P (if ends_with_char b'/' src then src else src <> "/") w ≡ (ok es, v)
      → es ≡ listing P src w.files
  list_or_empty-listing src es w v h =
      elim (Attempt-cases (P.list (if ends_with_char b'/' src then src else src <> "/") w.files)) [
        | inl (found, e) ↦ ground arith
        | inr (message, e) ↦ ground arith
      ]

  -- A round leaves less than it found, all of it in the tree, and keeps the property of the store.
  trash_round-shrinks :
      (curr : String) (stack stack' : List String) (w w' : World P)
      → trash_round P username curr stack w ≡ (ok stack', w')
      → All Inside (curr ∷ stack)
      → J w.files
      → (total weight stack' < weight curr + total weight stack) × All Inside stack' × J w'.files
  unfolding trash_round
  trash_round-shrinks curr stack stack' w w' h (here, inside) j =
      let K = F.kept in
      let after_list : String → List Entry → Op P (List String) = λ src es.
        trash_entries P username curr stack es >>= λ s.
        ignore (perform P (P.remove_all src)) >> pure s in
      let after_path : String → Op P (List String) = λ src.
        list_or_empty P (if ends_with_char b'/' src then src else src <> "/") >>= after_list src in
      let below = relative_parent ("/User/" <> username) (parent curr) in
      let (name, w1, named, h1) =
        >>=-eq-ok (expect (file_name curr) (bad_request "Invalid path"))
          (λ name.
            insert_trash_dir_item P username below name
            >> (resolve_opendal_path P username curr >>= after_path))
          w h in
      let (_, w2, inserted, h2) =
        >>=-eq-ok (insert_trash_dir_item P username below name)
          (λ _. resolve_opendal_path P username curr >>= after_path) w1 h1 in
      let (src, w3, resolved, h3) =
        >>=-eq-ok (resolve_opendal_path P username curr) after_path w2 h2 in
      let (es, w4, listed, h4) =
        >>=-eq-ok (list_or_empty P (if ends_with_char b'/' src then src else src <> "/"))
          (after_list src) w3 h3 in
      let (middle, w5, entries, h5) =
        >>=-eq-ok (trash_entries P username curr stack es)
          (λ s. ignore (perform P (P.remove_all src)) >> pure s) w4 h4 in
      let j1 : J w1.files =
        subst (λ v. J v.files) (expect-world (file_name curr) name w w1 named) j in
      let j2 =
        kept_by (insert_trash_dir_item P username below name) w1 w2 tt
          (insert_trash_dir_item-Guards P J K username below name) inserted j1 in
      let j3 =
        kept_by (resolve_opendal_path P username curr) w2 w3 src
          (resolve-Guards P J K username curr) resolved j2 in
      let j4 =
        kept_by (list_or_empty P (if ends_with_char b'/' src then src else src <> "/")) w3 w4 es
          (list_or_empty-Guards P J K _) listed j3 in
      let j5 =
        kept_by (trash_entries P username curr stack es) w4 w5 middle
          (trash_entries-Guards P J K username curr stack es) entries j4 in
      let seen : es ≡ listing P src w3.files = list_or_empty-listing src es w3 w4 listed in
      let left : stack' ≡ middle = ground arith in
      let small : listed_weight weight curr es < weight curr =
        rw seen (F.shrinks curr src w2 w3 here j3 resolved) in
      let children : ListsInside Inside curr es =
        rw seen (F.closed curr src w2 w3 here j3 resolved) in
      let sum = trash_entries-total curr stack middle es w4 w5 entries in
      let removed : J (P.remove_all src w5.files).1 = K.removes src w5.files j5 in
      let last : (P.remove_all src w5.files).1 ≡ w'.files = ap (λ r. r.1.files) h5 in
      (
        rw left (omega (arith, small, sum)),
        rw left (trash_entries-Inside curr stack middle es w4 w5 entries children inside),
        subst J last removed,
      )

  -- The fuel does not run out before the stack is empty, and the loop returns true or an error, if the
  -- directories on the stack lie in a finite tree, in every state of the store that trashing can lead to
  -- from the present one, and the fuel is no less than the weight of the stack. A tree is finite if every
  -- directory in it weighs more than the directories listed in it together, which lie in the tree, too.
  pub trash_directories-Ends :
      (fuel : ℕ) (stack : List String) (w : World P)
      → All Inside stack
      → J w.files
      → total weight stack ≤ fuel
      → (trash_directories P fuel username stack w).0 ≢ ok false
  unfolding trash_directories
  trash_directories-Ends zero [] w inside j h = λ e. cc
  trash_directories-Ends (suc fuel) [] w inside j h = λ e. cc
  trash_directories-Ends zero (curr ∷ stack) w inside j h = absurd (omega (arith, F.positive curr))
  trash_directories-Ends (suc fuel) (curr ∷ stack) w inside j h =
      elim (Result-cases (trash_round P username curr stack w).0) [
        | inr (x, e) ↦ λ f. absurd (ground arith)
        | inl (stack', e) ↦
            let w' = (trash_round P username curr stack w).1 in
            let (smaller, inside', j') =
              trash_round-shrinks curr stack stack' w w' (ap (λ r. (r, w')) e) inside j in
            let rest =
              trash_directories-Ends fuel stack' w' inside' j' (omega (arith, h, smaller)) in
            λ f. rest (ground arith)
      ]
