-- ===== src/Storage/Access/Escape.antt =====
-- A path that `resolve_opendal_path` lets climb: `trim_start_matches` removes "/System" as often as
-- it stands at the front, and leaves "../" of a part "System..".
use text.Mathlib.TextLemmas.{cons-append, append_assoc}
use nasserver.Base.{Char, String, ◌≡◌, refl, ◌∙◌, sym, ap, ◌≢◌, true, false, arith}
use nasserver.Base.Text.{◌<>◌, ◌=s=◌, eq_iff, starts_with, strip_prefix, trim_start_matches}
use nasserver.Base.Text.Prefix.{starts_with-append, trim_start_matches_twice}
use nasserver.Domain.{ok}
use nasserver.Storage.World.{Platform, World}
use nasserver.Storage.Paths.{normalize_path, slash}
use nasserver.Storage.Access.{resolve_clean, resolve_opendal_path, resolve_system}

abbrev letter : Char
letter = "S"

abbrev dot : Char
dot = "."

abbrev doubled : String → String
doubled r = "/System" <> ("/System" <> ("../" <> r))

trim_doubled : (r : String) → trim_start_matches (doubled r) "/System" ≡ "../" <> r
unfolding strip_prefix
trim_doubled r =
    trim_start_matches_twice slash "System" ("../" <> r) (rw (cons-append dot "./" r) refl)

resolve_system-doubled :
    (r : String) → resolve_system (doubled r) ≡ "vol1/User/admin/System/" <> ("../" <> r)
unfolding resolve_system
resolve_system-doubled r = rw (trim_doubled r) (rw (cons-append dot "./" r) refl)

doubled_below : (r : String) → doubled r ≡ "/System/" <> ("System" <> ("../" <> r))
doubled_below r =
    ap (λ t. "/System" <> t) (append_assoc "/" "System" ("../" <> r))
    ∙ sym (append_assoc "/System" "/" ("System" <> ("../" <> r)))

doubled-not_app_data : (r : String) → starts_with (doubled r) "/A" ≡ false
unfolding starts_with
doubled-not_app_data r =
    rw (cons-append slash "System" ("/System" <> ("../" <> r)))
      (rw (cons-append letter "ystem" ("/System" <> ("../" <> r))) refl)

starts_with_weaken : (s : String) → starts_with s "/A" ≡ false → starts_with s "/AppData/" ≡ false
unfolding starts_with
starts_with_weaken String.[] h = refl
starts_with_weaken (String.◌∷◌ c String.[]) h = ground arith
starts_with_weaken (String.◌∷◌ c (String.◌∷◌ d s)) h = ground arith

ne_of_starts_with : (s t p : String) → starts_with s p ≡ false → starts_with t p ≡ true → s ≢ t
ne_of_starts_with s t p h k = λ e. cc (rw e at h)

doubled-ne_app_data : (r : String) → (doubled r =s= "/AppData") ≡ false
unfolding starts_with
doubled-ne_app_data r =
    let differ = ne_of_starts_with (doubled r) "/AppData" "/A" (doubled-not_app_data r) refl in
    ground (arith, eq_iff (doubled r) "/AppData")

module _ (P : Platform) where
  resolve_clean-doubled :
      (username r : String) (w : World P)
      → resolve_clean P username (doubled r) w ≡ (ok ("vol1/User/admin/System/" <> ("../" <> r)), w)
  unfolding resolve_clean
  resolve_clean-doubled username r w =
      let a = starts_with_weaken (doubled r) (doubled-not_app_data r) in
      let b = doubled-ne_app_data r in
      let c : starts_with (doubled r) "/System/" ≡ true =
        rw (doubled_below r) (starts_with-append "/System/" ("System" <> ("../" <> r))) in
      rw (a, b, c) (ap (λ op. (ok op, w)) (resolve_system-doubled r))

  -- Whoever asks, a virtual path whose normal form is "/System/System../" followed by a text resolves
  -- to a path that climbs out of /System, into the directory of the user admin.
  pub resolve_opendal_path-climbs :
      (username virtual_path r : String) (w : World P)
      → normalize_path virtual_path ≡ "/System/System../" <> r
      → resolve_opendal_path P username virtual_path w ≡ (ok ("vol1/User/admin/System/../" <> r), w)
  unfolding resolve_opendal_path
  resolve_opendal_path-climbs username virtual_path r w e =
      let same : normalize_path virtual_path ≡ doubled r =
        e
        ∙ append_assoc "/System" "/System../" r
        ∙ ap (λ t. "/System" <> t) (append_assoc "/System" "../" r) in
      ap (λ c. resolve_clean P username c w) same
      ∙ (resolve_clean-doubled username r w
          ∙ ap (λ op. (ok op, w)) (sym (append_assoc "vol1/User/admin/System/" "../" r)))
