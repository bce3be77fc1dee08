-- ===== src/System/Collector/Spaced.antt =====
-- How much the collector stores, and what it is asked for afterwards.
use nasserver.Base.{
  ℕ, zero, suc, ◌+◌, ◌-◌, ◌*◌, ◌≤◌, ◌≡◌, refl, ap, Option, none, some, List, [], ◌∷◌, ◌++◌, All,
  All-keep, length, take, arith, String,
}
use nasserver.System.Collector.{
  SystemStats, Sample, Collector, read_disks, store_row, collect, collect_all, StatsHistoryQuery,
  unwrap_or, get_stats_history,
}

-- A statement does not end before it starts.
abbrev pub IsTimed : {R : Type 0} → Sample R → Type 0
IsTimed s = s.checked ≤ s.stored

length-snoc : {A : Type 0} (xs : List A) (x : A) → length (xs ++ (x ∷ [])) ≡ length xs + 1
length-snoc [] x = omega arith
length-snoc (y ∷ xs) x = omega (arith, length-snoc xs x)

module _ {R : Type 0} where
  read_disks-keeps :
      (d : Option String) (c : Collector R)
      → ((read_disks d c).1.rows ≡ c.rows) × ((read_disks d c).1.last_record ≡ c.last_record)
  unfolding read_disks
  read_disks-keeps none c = (refl, refl)
  read_disks-keeps (some content) c = (refl, refl)

  store_row-grows :
      (s : Sample R) (stats : SystemStats R) (c : Collector R)
      → IsTimed s
      → 60 * length (store_row s stats c).rows + c.last_record
        ≤ 60 * length c.rows + (store_row s stats c).last_record
  unfolding store_row
  store_row-grows s stats c h = ground (arith, length-snoc c.rows stats)

  collect-grows :
      (s : Sample R) (c : Collector R)
      → IsTimed s
      → 60 * length (collect s c).rows + c.last_record
        ≤ 60 * length c.rows + (collect s c).last_record
  unfolding collect
  collect-grows s c h =
      let (moved, c') = read_disks s.diskstats c in
      let stats : SystemStats R = record {
        readings = s.readings;
        disk_read = moved.0;
        disk_write = moved.1;
        created_at = s.made;
      } in
      let (rows, last) = read_disks-keeps s.diskstats c in
      omega (
        arith,
        store_row-grows s stats (record c' { last_stats = some stats }) h,
        ap length rows,
        last,
      )

  -- The table of statistics grows by at most one row a minute, if no statement ends before it starts:
  -- sixty times the number of new rows is at most the time by which `last_record` has moved on.
  pub collect_all-grow :
      (ss : List (Sample R)) (c : Collector R)
      → All IsTimed ss
      → 60 * length (collect_all ss c).rows + c.last_record
        ≤ 60 * length c.rows + (collect_all ss c).last_record
  unfolding collect_all
  collect_all-grow [] c h = omega arith
  collect_all-grow (s ∷ ss) c (p, h) =
      omega (arith, collect-grows s c p, collect_all-grow ss (collect s c) h)

-- A row of the time that is asked for.
abbrev pub IsAsked : {R : Type 0} → ℕ → ℕ → SystemStats R → Type 0
IsAsked start last r = (start ≤ r.created_at) × (r.created_at ≤ last)

length-take : {A : Type 0} (n : ℕ) (xs : List A) → length (take n xs) ≤ n
length-take zero xs = omega arith
length-take (suc n) [] = omega arith
length-take (suc n) (x ∷ xs) = omega (arith, length-take n xs)

All-take : {A : Type 0} (P : A → Type 0) (n : ℕ) (xs : List A) → All P xs → All P (take n xs)
All-take P zero xs h = tt
All-take P (suc n) [] h = tt
All-take P (suc n) (x ∷ xs) (p, h) = (p, All-take P n xs h)

-- The history holds at most as many rows as are asked for, 100 by default, and only rows of the time
-- that is asked for, the last hour by default, if the database's order adds no row.
pub get_stats_history-IsAsked :
    {R : Type 0} (newest_first : List (SystemStats R) → List (SystemStats R))
    (q : StatsHistoryQuery) (now : ℕ) (rows : List (SystemStats R))
    → ((P : SystemStats R → Type 0) (xs : List (SystemStats R))
        → All P xs
        → All P (newest_first xs))
    → (length (get_stats_history newest_first q now rows) ≤ unwrap_or q.limit 100)
      × All
          (IsAsked (unwrap_or q.start (now - 3600)) (unwrap_or q.end now))
          (get_stats_history newest_first q now rows)
unfolding get_stats_history
get_stats_history-IsAsked {R} newest_first q now rows same =
    let asked = IsAsked {R = R} (unwrap_or q.start (now - 3600)) (unwrap_or q.end now) in
    (
      length-take (unwrap_or q.limit 100) _,
      All-take asked (unwrap_or q.limit 100) _
          (same asked _ (All-keep asked _ rows (λ r h. ground arith))),
    )
