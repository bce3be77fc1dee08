-- ===== src/Downloader/Links.antt =====
-- Magnet links and virtual paths: `enrich_magnet_link` and `get_virtual_path` of
-- crates/downloader/src/downloader_service.rs. The urlencoding package is a parameter.
use text.Mathlib.TextLemmas.{nil-append, cons-append, append_assoc, append-nil}
use mathlib.Core.Path.{subst}
use nasserver.Base.{
  Char, String, ◌≡◌, refl, Bool, true, not, ◌||◌, ◌&&◌, List, [], ◌∷◌, All, keep, arith, inl, inr,
  Bool-cases, if◌then◌else◌, none, some,
}
use nasserver.Base.Text.{◌<>◌, ◌=s=◌, is_empty, starts_with, strip_prefix, split, join}
use nasserver.Base.Text.Prefix.{starts_with_sound, starts_with-append}

-- `DEFAULT_TRACKERS`
abbrev pub default_trackers : List String
default_trackers =
    "udp://tracker.opentrackr.org:1337/announce" ∷ "udp://open.stealth.si:80/announce"
    ∷ "udp://9.rarbg.com:2810/announce" ∷ "udp://p4p.arenabg.com:1337/announce"
    ∷ "udp://tracker.torrent.eu.org:451/announce" ∷ "udp://tracker.tiny-vps.com:6969/announce"
    ∷ "udp://tracker.moeking.me:6969/announce" ∷ "https://opentracker.i2p.rocks/announce" ∷ []

-- `str::contains`
unfoldable pub contains : String → String → Bool
contains String.[] p = starts_with "" p
contains (String.◌∷◌ c s) p = starts_with (String.◌∷◌ c s) p || contains s p

-- The link with a tracker, unless it has that tracker.
unfoldable pub with_tracker : (String → String) → String → String → String
with_tracker encode url t = if contains url (encode t) then url else url <> ("&tr=" <> encode t)

-- The loop over the trackers.
unfoldable pub add_trackers : (String → String) → List String → String → String
add_trackers encode [] url = url
add_trackers encode (t ∷ trackers) url = add_trackers encode trackers (with_tracker encode url t)

-- `enrich_magnet_link`
unfoldable pub enrich_magnet_link : (String → String) → String → String
enrich_magnet_link encode url =
    if starts_with url "magnet:?" then add_trackers encode default_trackers url else url

-- `get_virtual_path`
unfoldable pub get_virtual_path : String → String → String
get_virtual_path storage_path path = elim (strip_prefix path storage_path) [
  | none ↦ path
  | some rel ↦ elim (keep (λ x. not (is_empty x)) (split b'/' rel)) [
    | volume ∷ root ∷ owner ∷ rest ↦
        if volume =s= "vol1" && root =s= "User"
        then "/" <> join "/" rest
        else if volume =s= "vol1" && root =s= "AppData"
        then "/AppData/" <> join "/" (owner ∷ rest)
        else "/"
    | _ ↦ "/"
  ]
]

starts_with-more : (s t p : String) → starts_with s p ≡ true → starts_with (s <> t) p ≡ true
starts_with-more s t p h =
    let (r, e) = starts_with_sound s p h in
    rw (e, append_assoc p r t) (starts_with-append p (r <> t))

contains-start : (s p : String) → starts_with s p ≡ true → contains s p ≡ true
unfolding contains
contains-start String.[] p h = h
contains-start (String.◌∷◌ c s) p h = rw h refl

contains-later :
    (c : Char) (s p : String) → contains s p ≡ true → contains (String.◌∷◌ c s) p ≡ true
unfolding contains
contains-later c s p h = ground arith

-- What a text contains, a longer one contains.
contains-more : (s t p : String) → contains s p ≡ true → contains (s <> t) p ≡ true
unfolding contains
contains-more String.[] t p h = contains-start ("" <> t) p (starts_with-more "" t p h)
contains-more (String.◌∷◌ c s) t p h = elim (Bool-cases (starts_with (String.◌∷◌ c s) p)) [
  | inl e ↦ contains-start (String.◌∷◌ c s <> t) p (starts_with-more (String.◌∷◌ c s) t p e)
  | inr e ↦ rw cons-append (contains-later c (s <> t) p (contains-more s t p (ground arith)))
]

contains-behind : (s p : String) → contains (s <> p) p ≡ true
contains-behind String.[] p = rw nil-append (
    contains-start p p
      (subst (λ q. starts_with q p ≡ true) (append-nil p) (starts_with-append p "")))
contains-behind (String.◌∷◌ c s) p =
    rw cons-append (contains-later c (s <> p) p (contains-behind s p))

-- The link with a tracker has it, and what the link had.
with_tracker-contains :
    (encode : String → String) (url t : String)
    → contains (with_tracker encode url t) (encode t) ≡ true
unfolding with_tracker
with_tracker-contains encode url t = elim (Bool-cases (contains url (encode t))) [
  | inl e ↦ rw (e, with_tracker) e
  | inr e ↦
      rw (e, with_tracker)
        (subst (λ u. contains u (encode t) ≡ true) (append_assoc url "&tr=" (encode t))
          (contains-behind (url <> "&tr=") (encode t)))
]

with_tracker-more :
    (encode : String → String) (url t p : String)
    → contains url p ≡ true
    → contains (with_tracker encode url t) p ≡ true
unfolding with_tracker
with_tracker-more encode url t p h = ground (arith, contains-more url ("&tr=" <> encode t) p h)

with_tracker-starts :
    (encode : String → String) (url t p : String)
    → starts_with url p ≡ true
    → starts_with (with_tracker encode url t) p ≡ true
unfolding with_tracker
with_tracker-starts encode url t p h = ground (arith, starts_with-more url ("&tr=" <> encode t) p h)

-- A tracker is in the link once its round is over, and the rounds after it keep it there.
add_trackers-keeps :
    (encode : String → String) (trackers : List String) (url p : String)
    → contains url p ≡ true
    → contains (add_trackers encode trackers url) p ≡ true
unfolding add_trackers
add_trackers-keeps encode [] url p h = h
add_trackers-keeps encode (t ∷ trackers) url p h =
    add_trackers-keeps encode trackers (with_tracker encode url t) p
      (with_tracker-more encode url t p h)

add_trackers-All :
    (encode : String → String) (trackers : List String) (url : String)
    → All (λ t. contains (add_trackers encode trackers url) (encode t) ≡ true) trackers
unfolding add_trackers
add_trackers-All encode [] url = tt
add_trackers-All encode (t ∷ trackers) url =
    let u = with_tracker encode url t in
    (
      add_trackers-keeps encode trackers u (encode t) (with_tracker-contains encode url t),
      add_trackers-All encode trackers u,
    )

add_trackers-none :
    (encode : String → String) (trackers : List String) (url : String)
    → All (λ t. contains url (encode t) ≡ true) trackers
    → add_trackers encode trackers url ≡ url
unfolding add_trackers with_tracker
add_trackers-none encode [] url h = refl
add_trackers-none encode (t ∷ trackers) url (e, h) = rw e (add_trackers-none encode trackers url h)

add_trackers-starts :
    (encode : String → String) (trackers : List String) (url p : String)
    → starts_with url p ≡ true
    → starts_with (add_trackers encode trackers url) p ≡ true
unfolding add_trackers
add_trackers-starts encode [] url p h = h
add_trackers-starts encode (t ∷ trackers) url p h =
    add_trackers-starts encode trackers (with_tracker encode url t) p
      (with_tracker-starts encode url t p h)

-- A magnet link holds every default tracker after it is enriched, and enriching any link twice is
-- enriching it once.
pub enrich_magnet_link-IsEnriched :
    (encode : String → String) (url : String)
    → (starts_with url "magnet:?" ≡ true
        → All (λ t. contains (enrich_magnet_link encode url) (encode t) ≡ true) default_trackers)
      × (enrich_magnet_link encode (enrich_magnet_link encode url) ≡ enrich_magnet_link encode url)
unfolding enrich_magnet_link
enrich_magnet_link-IsEnriched encode url = elim (Bool-cases (starts_with url "magnet:?")) [
  | inl e ↦
      let rich = add_trackers encode default_trackers url in
      let all = add_trackers-All encode default_trackers url in
      (
        λ _. rw e all,
        rw e (
            rw (add_trackers-starts encode default_trackers url "magnet:?" e)
              (add_trackers-none encode default_trackers rich all)),
      )
  | inr e ↦ (λ h. absurd (ground arith), rw e (rw e refl))
]
