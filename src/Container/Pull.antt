-- ===== src/Container/Pull.antt =====
-- Pulling images: `pull_image`, and the pulled images in `list_images`, of
-- crates/container/src/container_service.rs. What arrives from Docker is a list of events, whose
-- numbers are natural; the progress is the pair of sums that it is the percentage of.
pub mod Progress
use nasserver.Base.{
  ℕ, zero, ◌+◌, String, Char, Bool, true, false, not, Option, none, some, List, [], ◌∷◌, ◌++◌, keep,
  ltb, if◌then◌else◌,
}
use nasserver.Base.Text.{◌<>◌, ◌=s=◌, is_empty}
use nasserver.Domain.{Result, ok, err}
use nasserver.Base.Maps.{remove, insert, modify}
use nasserver.Container.Requests.{PullImageReq, validate_pull_req}

-- The sizes are `i64` in the source; Docker tells lengths, so they are natural numbers here, and neither
-- they nor their sums come near 2 ^ 63.
pub record LayerStatus : Type 0 where
  pub current : ℕ
  pub total : ℕ

-- `none` is the progress 0.0 of a pull that has told nothing.
pub record PullStatus : Type 0 where
  pub progress : Option (ℕ × ℕ)
  pub layers : List (String × LayerStatus)
  pub error : Option String

abbrev pub Pulling : Type 0
Pulling = List (String × PullStatus)

-- What `create_image` streams: `CreateImageInfo` with its `id` and `progress_detail`, or an error.
pub data PullEvent : Type 0 where
  info : (id : Option String) → (progress_detail : Option (Option ℕ × Option ℕ)) → PullEvent
  broken : String → PullEvent

abbrev pub default_status : PullStatus
default_status = record { progress = none; layers = []; error = none }

abbrev pub sum_current : List (String × LayerStatus) → ℕ
sum_current [] = 0
sum_current ((id, l) ∷ ls) = l.current + sum_current ls

abbrev pub sum_total : List (String × LayerStatus) → ℕ
sum_total [] = 0
sum_total ((id, l) ∷ ls) = l.total + sum_total ls

-- The layer that an event tells of.
abbrev pub told : Option String → Option (Option ℕ × Option ℕ) → Option (String × LayerStatus)
told (some id) (some (some current, some total)) =
    if ltb 0 total then some (id, record { current = current; total = total }) else none
told id detail = none

abbrev pub with_layer : Option (String × LayerStatus) → PullStatus → PullStatus
with_layer none s = s
with_layer (some (id, l)) s = record s { layers = insert id l s.layers }

abbrev pub with_progress : PullStatus → PullStatus
with_progress s =
    if ltb 0 (sum_total s.layers)
    then record s { progress = some (sum_current s.layers, sum_total s.layers) }
    else s

abbrev pub set_pull_error : String → PullStatus → PullStatus
set_pull_error message s = record s { error = some message }

-- The loop over the stream, with its variable `success`.
unfoldable pub pull_loop : String → List PullEvent → Pulling → Bool × Pulling
pull_loop image [] p = (true, p)
pull_loop image (broken message ∷ events) p = (false, modify image (set_pull_error message) p)
pull_loop image (info id detail ∷ events) p =
    pull_loop image events (modify image (λ s. with_progress (with_layer (told id detail) s)) p)

-- The task that `pull_image` spawns.
unfoldable pub run_pull : String → List PullEvent → Pulling → Pulling
run_pull image events p =
    let (success, q) = pull_loop image events (insert image default_status p) in
    if success then remove image q else q

-- The image that is pulled, with its tag.
abbrev pub from_image : PullImageReq → String
from_image req = elim req.tag [
  | none ↦ req.image
  | some tag ↦ if is_empty tag then req.image else req.image <> (":" <> tag)
]

-- `pull_image`, with the task run to its end.
unfoldable pub pull_image :
    (Char → Bool) → PullImageReq → List PullEvent → Pulling → Result (Unit {0}) × Pulling
pull_image is_alphanumeric req events p = elim (validate_pull_req is_alphanumeric req) [
  | err e ↦ (err e, p)
  | ok u ↦ (ok tt, run_pull (from_image req) events p)
]

-- `ImageInfo`, with the columns that tell of a pull.
pub record ImageInfo : Type 0 where
  pub id : String
  pub repo_tags : List String
  pub status : String
  pub progress : Option (Option (ℕ × ℕ))
  pub error : Option String

abbrev pub pulling_info : String × PullStatus → ImageInfo
pulling_info (image, s) = record {
  id = "pulling-" <> image;
  repo_tags = image ∷ [];
  status = elim s.error [ none ↦ "pulling" | some message ↦ "error" ];
  progress = some s.progress;
  error = s.error;
}

-- The loop of `list_images` that puts the pulled images in front.
unfoldable pub add_pulling : List ImageInfo → Pulling → List ImageInfo
add_pulling items [] = items
add_pulling items (p ∷ ps) = add_pulling (pulling_info p ∷ items) ps
