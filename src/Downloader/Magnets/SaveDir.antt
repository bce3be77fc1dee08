-- ===== src/Downloader/Magnets/SaveDir.antt =====
-- Where the torrents that a user chooses are stored.
use nasserver.Base.{String, ◌≡◌, ◌↔◌, refl, Bool, true, false, some, All-append_left, arith}
use nasserver.Base.Text.{◌<>◌, eq_iff, split, trim_start_char}
use nasserver.Storage.Access.Stays.{
  Stays, split-slash, Stays-below, Stays-right, Stays-trim, stays_test, stays_test_sound,
}
use nasserver.Downloader.Magnets.{base_save_dir, save_dir}

Stays-left : (s t : String) → Stays (s <> ("/" <> t)) → Stays s
Stays-left s t h = All-append_left _ (split b'/' s) (split b'/' t) (rw split-slash at h)

Stays-trim_of : (s : String) → Stays (trim_start_char b'/' s) → Stays s
unfolding trim_start_char split
Stays-trim_of String.[] h = h
Stays-trim_of (String.◌∷◌ c s) h = ground (arith, Stays-trim_of s, eq_iff "" "..")

base-Stays :
    (storage_path username p : String)
    → Stays storage_path
    → Stays username
    → Stays (base_save_dir storage_path username (some p)) ↔ Stays p
unfolding stays_test
base-Stays storage_path username p root user =
    let rel = trim_start_char b'/' p in
    let home = "vol1/User" <> ("/" <> (username <> ("/" <> rel))) in
    (
      λ h. Stays-trim_of p (
          Stays-right username rel
            (Stays-right "vol1/User" (username <> ("/" <> rel)) (Stays-right storage_path home h))),
      λ h. Stays-below storage_path home root (
          Stays-below "vol1/User" (username <> ("/" <> rel)) (stays_test_sound "vol1/User" refl)
            (Stays-below username rel user (Stays-trim p h))),
    )

-- For a storage root and a user's name that have no part "..", the directory that a torrent of several
-- files is stored in has no part ".." exactly if neither the path in the request nor the torrent's own
-- name has one; for a torrent of one file, exactly if the path has none.
pub save_dir-Stays_iff :
    (storage_path username p name : String) (is_single_file : Bool)
    → Stays storage_path
    → Stays username
    → Stays (save_dir storage_path username (some p) (name, is_single_file))
      ↔ (Stays p × (is_single_file ≡ false → Stays name))
unfolding save_dir
save_dir-Stays_iff storage_path username p name true root user =
    let (out, back) = base-Stays storage_path username p root user in
    (λ h. (out h, λ e. absurd (cc)), λ h. back h.0)
save_dir-Stays_iff storage_path username p name false root user =
    let base = base_save_dir storage_path username (some p) in
    let (out, back) = base-Stays storage_path username p root user in
    (
      λ h. (out (Stays-left base name h), λ _. Stays-right base name h),
      λ (h, k). Stays-below base name (back h) (k refl),
    )
