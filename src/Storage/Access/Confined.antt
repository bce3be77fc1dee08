-- ===== src/Storage/Access/Confined.antt =====
-- Where resolved paths lie, branch by branch.
use text.Mathlib.TextLemmas.{nil-append}
use nasserver.Base.{
  String, ◌≡◌, refl, true, false, ◌||◌, List, [], ◌∷◌, All, arith, Bool-cases, inl, inr,
  Option-cases,
}
use nasserver.Base.Text.{
  ◌<>◌, ◌=s=◌, eq_iff, is_empty, strip_prefix, starts_with, split, trim_start_char,
  trim_start_matches,
}
use nasserver.Base.Text.Prefix.{strip_prefix_sound, starts_with_sound}
use nasserver.Storage.World.{Platform, World, Entry}
use nasserver.Storage.Access.{
  resolve_system, resolve_trash, resolve_app_data, resolve_user, resolve_own, joined,
  check_app_access, is_date, dated_matches, choose_match, listed, first_part, is_match,
}
use nasserver.Domain.{ok, >>=-eq-ok}
use nasserver.Storage.Paths.Laws.{}
use nasserver.Storage.Paths.{slash}
use nasserver.Storage.Access.Stays.{
  Stays, Stays-below, Stays-right, stays_test, stays_test_sound, IsConfined, Stays-trimmed,
  IsConfined-below, IsPart, joined-IsConfined, is_date-Stays, IsConfined-under,
}

resolve_system-below :
    (r : String)
    → Stays ("/System/" <> r)
    → starts_with ("/System/" <> r) "/System/System" ≡ false
    → IsConfined (resolve_system ("/System/" <> r))
unfolding resolve_system stays_test
resolve_system-below r h once =
    let rel = trim_start_char b'/' (trim_start_matches ("/System/" <> r) "/System") in
    let k : Stays rel = Stays-trimmed slash "System" r h once in
    elim (Bool-cases (is_empty rel)) [
      | inl e ↦ rw e ("User/admin/System", refl, stays_test_sound "vol1/User/admin/System" refl)
      | inr e ↦ rw e (
          IsConfined-below "vol1/User/admin/System" rel
            (stays_test_sound "vol1/User/admin/System" refl) k ("User/admin/System/", refl))
    ]

trash_rel-Stays :
    (p : String)
    → Stays p
    → starts_with p "/Trash/" || p =s= "/Trash" ≡ true
    → starts_with p "/Trash/Trash" ≡ false
    → Stays (trim_start_char b'/' (trim_start_matches p "/Trash"))
unfolding stays_test trim_start_matches trim_start_char
trash_rel-Stays p h start once = elim (Bool-cases (starts_with p "/Trash/")) [
  | inl below ↦
      let (r, e) = starts_with_sound p "/Trash/" below in
      rw e (Stays-trimmed slash "Trash" r (rw e at h) (rw e at once))
  | inr other ↦
      let e : p ≡ "/Trash" = ground (arith, eq_iff p "/Trash") in rw e (stays_test_sound "" refl)
]

pub resolve_system-IsConfined :
    (p : String)
    → Stays p
    → starts_with p "/System/" || p =s= "/System" ≡ true
    → starts_with p "/System/System" ≡ false
    → IsConfined (resolve_system p)
unfolding resolve_system stays_test
resolve_system-IsConfined p h start once = elim (Bool-cases (starts_with p "/System/")) [
  | inl below ↦
      let (r, e) = starts_with_sound p "/System/" below in
      rw e (resolve_system-below r (rw e at h) (rw e at once))
  | inr other ↦
      let e : p ≡ "/System" = ground (arith, eq_iff p "/System") in
      rw e ("User/admin/System", refl, stays_test_sound "vol1/User/admin/System" refl)
]

pub resolve_own-IsConfined :
    (username clean_path : String)
    → Stays username
    → Stays clean_path
    → IsConfined (resolve_own username clean_path)
unfolding resolve_own stays_test
resolve_own-IsConfined username p hu h = elim (Option-cases (strip_prefix p "/")) [
  | inl e ↦ rw e (below p h)
  | inr (rel, e) ↦
      rw e (below rel (Stays-right "" rel (rw (nil-append, ← strip_prefix_sound p "/" e) h)))
]
  where
    below : (rel : String) → Stays rel → IsConfined ("vol1/User/" <> (username <> ("/" <> rel)))
    below rel k =
        IsConfined-below "vol1/User" (username <> ("/" <> rel)) (stays_test_sound "vol1/User" refl)
          (Stays-below username rel hu k) ("User/", refl)

module _ (P : Platform) where
  pub resolve_user-IsConfined :
      (parts : List String) (w w' : World P) (op : String)
      → All IsPart parts
      → resolve_user P parts w ≡ (ok op, w')
      → IsConfined op
  unfolding resolve_user stays_test
  resolve_user-IsConfined [] w w' op h e = cc
  resolve_user-IsConfined (x ∷ []) w w' op h e = cc
  resolve_user-IsConfined (x ∷ y ∷ ys) w w' op (_, h) e =
      let same : joined ("vol1/User/" <> y) ys ≡ op = ground arith in
      rw (← same)
        (joined-IsConfined "vol1/User" y ys (stays_test_sound "vol1/User" refl) h ("User/", refl))

  pub resolve_app_data-IsConfined :
      (username : String) (parts : List String) (w w' : World P) (op : String)
      → All IsPart parts
      → resolve_app_data P username parts w ≡ (ok op, w')
      → IsConfined op
  unfolding resolve_app_data stays_test
  resolve_app_data-IsConfined username [] w w' op h e =
      let same : "vol1/AppData" ≡ op = ground arith in
      rw (← same) ("AppData", refl, stays_test_sound "vol1/AppData" refl)
  resolve_app_data-IsConfined username (x ∷ []) w w' op h e =
      let same : "vol1/AppData" ≡ op = ground arith in
      rw (← same) ("AppData", refl, stays_test_sound "vol1/AppData" refl)
  resolve_app_data-IsConfined username (x ∷ y ∷ ys) w w' op (_, h) e =
      let (allowed, v, _, e') = >>=-eq-ok (check_app_access P username y) _ w e in
      let same : joined ("vol1/AppData/" <> y) ys ≡ op = ground arith in
      rw (← same) (
        joined-IsConfined "vol1/AppData" y ys (stays_test_sound "vol1/AppData" refl) h
          ("AppData/", refl))

  -- What the matching entries of the trash give: candidates below its directory.
  dated_matches-IsConfined :
      (base rel : String) (files : P.Files) (es : List Entry)
      → IsConfined base
      → Stays rel
      → All IsConfined (dated_matches P base rel files es)
  unfolding dated_matches
  dated_matches-IsConfined base rel files [] h k = tt
  dated_matches-IsConfined base rel files (e ∷ es) h k =
      elim (Bool-cases (is_match P base rel files e)) [
        | inl t ↦ rw t (
          IsConfined-under base (e.name <> ("/" <> rel)) h
              (Stays-below e.name rel (is_date-Stays e.name (is_match-is_date e t)) k),
          dated_matches-IsConfined base rel files es h k,
        )
        | inr f ↦ rw f (dated_matches-IsConfined base rel files es h k)
      ]
    where
      is_match-is_date : (e : Entry) → is_match P base rel files e ≡ true → is_date e.name ≡ true
      is_match-is_date e t = ground arith

  choose_match-IsConfined :
      (base rel : String) (ms : List String) (w w' : World P) (op : String)
      → IsConfined base
      → Stays rel
      → All IsConfined ms
      → choose_match P base rel ms w ≡ (ok op, w')
      → IsConfined op
  unfolding choose_match
  choose_match-IsConfined base rel [] w w' op h k _ e =
      let same : base <> ("/" <> rel) ≡ op = ground arith in
      rw (← same) (IsConfined-under base rel h k)
  choose_match-IsConfined base rel (m ∷ []) w w' op h k (c, _) e =
      let same : m ≡ op = ground arith in rw (← same) c
  choose_match-IsConfined base rel (m ∷ n ∷ ms) w w' op h k _ e = cc

  pub resolve_trash-IsConfined :
      (username clean_path : String) (w w' : World P) (op : String)
      → Stays username
      → Stays clean_path
      → starts_with clean_path "/Trash/" || clean_path =s= "/Trash" ≡ true
      → starts_with clean_path "/Trash/Trash" ≡ false
      → resolve_trash P username clean_path w ≡ (ok op, w')
      → IsConfined op
  unfolding resolve_trash stays_test
  resolve_trash-IsConfined username p w w' op hu h start once e =
      let rel = trim_start_char b'/' (trim_start_matches p "/Trash") in
      let base = "vol1/User/" <> (username <> "/.Trash") in
      let k : Stays rel = trash_rel-Stays p h start once in
      let c : IsConfined base =
        IsConfined-below "vol1/User" (username <> ("/" <> ".Trash"))
          (stays_test_sound "vol1/User" refl)
          (Stays-below username ".Trash" hu (stays_test_sound ".Trash" refl)) ("User/", refl) in
      let entries = listed (P.list (base <> "/") w.files) in
      elim (Bool-cases (is_empty rel)) [
        | inl empty ↦ let same : base ≡ op = ground arith in rw (← same) c
        | inr more ↦ elim (Bool-cases (is_date (first_part (split b'/' rel)))) [
          | inl dated ↦
              let same : base <> ("/" <> rel) ≡ op = ground arith in
              rw (← same) (IsConfined-under base rel c k)
          | inr undated ↦
              choose_match-IsConfined base rel (dated_matches P base rel w.files entries) w w' op c
                k (dated_matches-IsConfined base rel w.files entries c k) (ground arith)
        ]
      ]
