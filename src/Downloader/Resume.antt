-- ===== src/Downloader/Resume.antt =====
-- Resumed downloads: `download_process_internal` of crates/downloader/src/downloader_service.rs.
use mathlib.Core.List.{append_assoc, append-nil}
use nasserver.Base.{
  ℕ, take, ◌+◌, ◌≡◌, refl, sym, ap, ◌∙◌, Bool, true, false, Option, none, some, List, [], ◌∷◌, ◌++◌,
  All, length, drop, ltb, if◌then◌else◌, arith, Option-cases, inl, inr,
}
use mathlib.Core.Path.{subst}
use nasserver.Base.Ends.{drop_exact, take-append-drop}
use nasserver.Base.Text.{◌<>◌}
use nasserver.Storage.World.{Bytes}
use nasserver.Downloader.Columns.{Value, text, uuid}
use nasserver.Downloader.{
  HttpAnswer, no_response, refused, response, Download, Host, Task, size_of, bytes_of, update,
  store_progress, write, receive, sync_file, conclude, open_file, take_body, receive_answer,
  download_process,
}

abbrev pub flat : List Bytes → Bytes
flat [] = []
flat (chunk ∷ chunks) = chunk ++ flat chunks

-- The text is a beginning of the other.
abbrev pub IsPrefix : Bytes → Bytes → Type 0
IsPrefix xs body = (rest : Bytes) × (xs ++ rest ≡ body)

-- An answer to a request for the body from some place on: no body, or chunks of it in their order,
-- all of it unless the connection breaks.
abbrev pub IsPart : Bytes → HttpAnswer → Type 0
IsPart rest (no_response message) = Unit
IsPart rest (refused status) = Unit
IsPart rest (response content_length chunks true) = IsPrefix (flat chunks) rest
IsPart rest (response content_length chunks false) = flat chunks ≡ rest

-- The server has the body, and honours ranges.
pub record Serves (body : Bytes) (H : Host) : Type 0 where
  pub whole : IsPart body (H.get none)
  pub part : (offset : ℕ) → IsPart (drop offset body) (H.get (some offset))

module _ (H : Host) where
  update-file :
      (id : Value) (change : Download → Download) (t : Task) → (update H id change t).file ≡ t.file
  unfolding update
  update-file id change t = refl

  store_progress-file : (total : ℕ) (t : Task) → (store_progress H total t).file ≡ t.file
  unfolding store_progress update
  store_progress-file total t = ground arith

  conclude-file : (t : Task) → (conclude H t).file ≡ t.file
  unfolding conclude sync_file update
  conclude-file t = ground arith

  -- What is written behind the file is a beginning of the chunks, all of them if no write fails.
  receive-IsPrefix :
      (total : ℕ) (chunks : List Bytes) (t : Task) (bytes : Bytes)
      → t.file ≡ some bytes
      → (written : Bytes) × ((receive H total chunks t).1.file ≡ some (bytes ++ written))
        × IsPrefix written (flat chunks)
        × ((receive H total chunks t).0 ≡ none → written ≡ flat chunks)
  unfolding receive
  receive-IsPrefix total [] t bytes h = ([], rw (append-nil bytes) h, ([], refl), λ e. refl)
  receive-IsPrefix total (chunk ∷ chunks) t bytes h = elim (Option-cases (H.write_error t.tick)) [
    | inr (message, e) ↦
        let n = H.part_written t.tick in
        (
          take n chunk,
          rw (e, receive) (ap (λ f. some (bytes_of f ++ take n chunk)) h),
          (
            drop n chunk ++ flat chunks,
            sym (append_assoc (take n chunk) (drop n chunk) (flat chunks))
                ∙ ap (λ xs. xs ++ flat chunks) (take-append-drop n chunk),
          ),
          λ f. absurd (ground arith),
        )
    | inl e ↦
        let t' = store_progress H total (write H chunk t) in
        let file : t'.file ≡ some (bytes ++ chunk) =
          store_progress-file total (write H chunk t) ∙ ap (λ f. some (bytes_of f ++ chunk)) h in
        let (written, now, (rest, made), all) =
          receive-IsPrefix total chunks t' (bytes ++ chunk) file in
        (
          chunk ++ written,
          rw (e, receive) (now ∙ ap some (append_assoc bytes chunk written)),
          (rest, append_assoc chunk written rest ∙ ap (λ xs. chunk ++ xs) made),
          λ f. ap (λ xs. chunk ++ xs) (all (ground arith)),
        )
  ]

  pub receive-none :
      (total : ℕ) (chunks : List Bytes) (t : Task)
      → ((n : ℕ) → H.write_error n ≡ none)
      → (receive H total chunks t).0 ≡ none
  unfolding receive
  receive-none total [] t h = refl
  receive-none total (chunk ∷ chunks) t h =
      rw (h t.tick, receive)
        (receive-none total chunks (store_progress H total (write H chunk t)) h)

  -- The file after a response with a body: the chunks that were written stand behind what was there.
  pub take_body-IsPrefix :
      (content_length : Option ℕ) (chunks : List Bytes) (t : Task)
      → (written : Bytes) × ((take_body H content_length chunks t).file
          ≡ some (bytes_of t.file ++ written))
        × IsPrefix written (flat chunks)
        × (((n : ℕ) → H.write_error n ≡ none) → written ≡ flat chunks)
  unfolding take_body
  take_body-IsPrefix content_length chunks t =
      let announced : ℕ = elim content_length [ none ↦ 0 | some n ↦ n ] in
      let total = announced + size_of t.file in
      let r = receive H total chunks (open_file H t) in
      let (written, now, made, all) =
        receive-IsPrefix total chunks (open_file H t) (bytes_of t.file) refl in
      let kept : (take_body H content_length chunks t).file ≡ r.1.file = elim (Option-cases r.0) [
        | inl e ↦ rw (e, take_body) (conclude-file r.1)
        | inr (message, e) ↦
            rw (e, take_body)
              (update-file (text r.1.id)
                (λ row. record row {
                  status = "error";
                  error_msg = some ("Write error: " <> message);
                })
                r.1)
      ] in
      (written, kept ∙ now, made, λ h. all (receive-none total chunks (open_file H t) h))

  get-IsPart :
      (body rest : Bytes) (f : Option Bytes)
      → Serves body H
      → bytes_of f ++ rest ≡ body
      → IsPart rest (H.get (if ltb 0 (size_of f) then some (size_of f) else none))
  get-IsPart body rest none S h = subst (λ r. IsPart r (H.get none)) (sym h) S.whole
  get-IsPart body rest (some []) S h = subst (λ r. IsPart r (H.get none)) (sym h) S.whole
  get-IsPart body rest (some (x ∷ xs)) S h =
      let n = length (x ∷ xs) in
      let more : ltb 0 n ≡ true = ground arith in
      let left : drop n body ≡ rest = ap (drop n) (sym h) ∙ drop_exact (x ∷ xs) rest in
      rw more (subst (λ r. IsPart r (H.get (some n))) left (S.part n))

-- The runs of a task, one after the other, each with answers and failures of its own.
abbrev pub runs : List Host → Task → Task
runs [] t = t
runs (H ∷ Hs) t = runs Hs (download_process H t)

receive_answer-IsPrefix :
    (H : Host) (body rest : Bytes) (a : HttpAnswer) (t : Task)
    → IsPart rest a
    → bytes_of t.file ++ rest ≡ body
    → IsPrefix (bytes_of (receive_answer H a t).file) body
unfolding receive_answer update
receive_answer-IsPrefix H body rest (no_response message) t part h = (rest, h)
receive_answer-IsPrefix H body rest (refused status) t part h = (rest, h)
receive_answer-IsPrefix H body rest (response len chunks is_broken) t part h =
    let (written, now, (left, made), all) = take_body-IsPrefix H len chunks t in
    let (unsent, sent) = IsPart-IsPrefix rest len chunks is_broken part in
    (
      left ++ unsent,
      ap (λ f. bytes_of f ++ (left ++ unsent)) now
          ∙ (append_assoc (bytes_of t.file) written (left ++ unsent)
              ∙ (ap (λ xs. bytes_of t.file ++ xs)
                    (sym (append_assoc written left unsent) ∙ (ap (λ xs. xs ++ unsent) made ∙ sent))
                  ∙ h)),
    )
  where
    IsPart-IsPrefix :
        (rest : Bytes) (len : Option ℕ) (chunks : List Bytes) (is_broken : Bool)
        → IsPart rest (response len chunks is_broken)
        → IsPrefix (flat chunks) rest
    IsPart-IsPrefix rest len chunks true part = part
    IsPart-IsPrefix rest len chunks false part = ([], append-nil (flat chunks) ∙ part)

download_process-IsPrefix :
    (H : Host) (body : Bytes) (t : Task)
    → Serves body H
    → IsPrefix (bytes_of t.file) body
    → IsPrefix (bytes_of (download_process H t).file) body
unfolding download_process update
download_process-IsPrefix H body t S (rest, h) =
    receive_answer-IsPrefix H body rest
      (H.get (if ltb 0 (size_of t.file) then some (size_of t.file) else none))
      (update H (uuid t.id) (λ row. record row { status = "downloading" }) t)
      (get-IsPart H body rest t.file S h) h

runs-IsPrefix :
    (Hs : List Host) (body : Bytes) (t : Task)
    → All (Serves body) Hs
    → IsPrefix (bytes_of t.file) body
    → IsPrefix (bytes_of (runs Hs t).file) body
runs-IsPrefix [] body t S h = h
runs-IsPrefix (H ∷ Hs) body t (S, Ss) h =
    runs-IsPrefix Hs body (download_process H t) Ss (download_process-IsPrefix H body t S h)

-- The run gets a whole answer and can write it.
pub record Completes (H : Host) : Type 0 where
  pub answers :
      (range : Option ℕ)
      → (len : Option ℕ) × (chunks : List Bytes) × (H.get range ≡ response len chunks false)
  pub writes : (n : ℕ) → H.write_error n ≡ none

-- A download that is broken off any number of times, by the server, the connection or the disk, and
-- resumed each time, has the same file as one that was never broken off, once a run gets a whole
-- answer and can write it: the body. The server must have that body for every run and honour ranges,
-- and the file must start as a beginning of the body, or not be there. The database may fail at will.
pub runs-Complete :
    (Hs : List Host) (H : Host) (body : Bytes) (t : Task)
    → All (Serves body) Hs
    → Serves body H
    → Completes H
    → IsPrefix (bytes_of t.file) body
    → (download_process H (runs Hs t)).file ≡ some body
unfolding download_process receive_answer update
runs-Complete Hs H body t Ss S C h =
    let t' = runs Hs t in
    let (rest, h') = runs-IsPrefix Hs body t Ss h in
    let range = if ltb 0 (size_of t'.file) then some (size_of t'.file) else none in
    let (len, chunks, e) = C.answers range in
    let v = update H (uuid t'.id) (λ row. record row { status = "downloading" }) t' in
    let (written, now, made, all) = take_body-IsPrefix H len chunks v in
    let part : flat chunks ≡ rest = subst (IsPart rest) e (get-IsPart H body rest t'.file S h') in
    ap (λ a. (receive_answer H a v).file) e
    ∙ (now ∙ ap some (ap (λ xs. bytes_of t'.file ++ xs) (all C.writes ∙ part) ∙ h'))
