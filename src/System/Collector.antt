-- ===== src/System/Collector.antt =====
-- `run_background_stats_collector`, `get_current_stats` and `get_stats_history` of
-- crates/system/src/system_service.rs. What a round reads of the processor, the memory, the network and
-- the GPU is a parameter, and so are the clock and the database's failures. Times are in seconds, and
-- counters are natural numbers; a rate is the number of bytes that it is computed from.
pub mod Spaced
use nasserver.Base.{
  ℕ, zero, ◌+◌, ◌-◌, ◌*◌, String, Bool, true, false, not, ◌&&◌, Option, none, some, List, [], ◌∷◌,
  ◌++◌, get_elem?, keep, length, take, leb, if◌then◌else◌,
}
use nasserver.Base.Text.Space.{split_whitespace, lines}
use nasserver.Base.Text.Digits.{parse_u64}
use nasserver.Domain.{}

-- `SystemStats`: the readings, the bytes read and written on the disks, and the time.
pub record SystemStats (R : Type 0) : Type 0 where
  pub readings : R
  pub disk_read : ℕ
  pub disk_write : ℕ
  pub created_at : ℕ

-- What a round meets: the readings, the text of /proc/diskstats where it can be read, the times at
-- which the statistics are made, the elapsed time is looked at, and the statement has been run, and
-- whether it fails.
pub record Sample (R : Type 0) : Type 0 where
  pub readings : R
  pub diskstats : Option String
  pub made : ℕ
  pub checked : ℕ
  pub stored : ℕ
  pub fails : Bool

-- The variables of the loop, `last_stats`, and the table `system_stats`.
pub record Collector (R : Type 0) : Type 0 where
  pub last_record : ℕ
  pub last_disk_read : ℕ
  pub last_disk_write : ℕ
  pub first_disk_run : Bool
  pub last_stats : Option (SystemStats R)
  pub rows : List (SystemStats R)

-- `parts[i].parse::<u64>().unwrap_or(0)`
abbrev pub number_at : List String → ℕ → ℕ
number_at parts i = elim (get_elem? parts i) [
  | none ↦ 0
  | some part ↦ elim (parse_u64 part) [ none ↦ 0 | some n ↦ n ]
]

-- The sectors that a line tells of, read and written.
unfoldable pub line_sectors : List String → ℕ × ℕ
line_sectors parts =
    if leb 14 (length parts) then (number_at parts 5, number_at parts 9) else (0, 0)

unfoldable pub sum_sectors : List String → ℕ × ℕ
sum_sectors [] = (0, 0)
sum_sectors (line ∷ rest) =
    let here = line_sectors (split_whitespace line) in
    let more = sum_sectors rest in (here.0 + more.0, here.1 + more.1)

-- The bytes read and written since the system has started.
unfoldable pub disk_bytes : String → ℕ × ℕ
disk_bytes content = let s = sum_sectors (lines content) in (s.0 * 512, s.1 * 512)

module _ {R : Type 0} where
  -- The part of a round that reads the disks; it yields the bytes since the last round.
  unfoldable pub read_disks : Option String → Collector R → (ℕ × ℕ) × Collector R
  read_disks none c = ((0, 0), c)
  read_disks (some content) c =
      let now = disk_bytes content in
      (
        (if c.first_disk_run
            then (0, 0)
            else (now.0 - c.last_disk_read, now.1 - c.last_disk_write)),
        record c { last_disk_read = now.0; last_disk_write = now.1; first_disk_run = false },
      )

  -- The part of a round that stores a row once a minute.
  unfoldable pub store_row : Sample R → SystemStats R → Collector R → Collector R
  store_row s stats c =
      if leb 60 (s.checked - c.last_record)
      then record c {
        rows = if s.fails then c.rows else c.rows ++ (stats ∷ []);
        last_record = s.stored;
      }
      else c

  -- One round of `run_background_stats_collector`.
  unfoldable pub collect : Sample R → Collector R → Collector R
  collect s c =
      let (moved, c') = read_disks s.diskstats c in
      let stats : SystemStats R = record {
        readings = s.readings;
        disk_read = moved.0;
        disk_write = moved.1;
        created_at = s.made;
      } in
      store_row s stats (record c' { last_stats = some stats })

  unfoldable pub collect_all : List (Sample R) → Collector R → Collector R
  collect_all [] c = c
  collect_all (s ∷ ss) c = collect_all ss (collect s c)

  -- `get_current_stats`; before the first round the statistics are read anew.
  unfoldable pub get_current_stats : SystemStats R → Collector R → SystemStats R
  get_current_stats fresh c = elim c.last_stats [ some stats ↦ stats | none ↦ fresh ]

-- `StatsHistoryQuery`
pub record StatsHistoryQuery : Type 0 where
  pub start : Option ℕ
  pub end : Option ℕ
  pub limit : Option ℕ

abbrev pub unwrap_or : Option ℕ → ℕ → ℕ
unwrap_or none d = d
unwrap_or (some n) d = n

-- `get_stats_history`; `newest_first` is the database's order.
unfoldable pub get_stats_history :
    {R : Type 0}
    → (List (SystemStats R) → List (SystemStats R))
    → StatsHistoryQuery
    → ℕ
    → List (SystemStats R)
    → List (SystemStats R)
get_stats_history {R} newest_first q now rows =
    let start = unwrap_or q.start (now - 3600) in
    let last = unwrap_or q.end now in
    take (unwrap_or q.limit 100) (
      newest_first
        (keep (λ (r : SystemStats R). leb start r.created_at && leb r.created_at last) rows))
