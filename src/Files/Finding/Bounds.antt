-- ===== src/Files/Finding/Bounds.antt =====
-- The bounds of a walk.
use switch_mcp.Base.{
  ℕ, zero, suc, ◌+◌, ◌≤◌, Bool, true, false, List, [], ◌∷◌, Option, none, some, ◌≡◌, arith,
  if◌then◌else◌, Bytes, Bool-cases, inl, inr,
}
use switch_mcp.Agent.{or_return}
use switch_mcp.Files.{Entry, Storage}
use switch_mcp.Files.Reading.{is_dot, child}
use switch_mcp.Files.Finding.{
  Wanted, Walk, is_full, max_scan, walks_into, note_entry, visit_entry, walk_entries, walk_find,
  child_of, is_wanted,
}

-- No more is found than the limit and than was scanned, and no more is scanned than the cap.
pub record IsBounded (want : Wanted) (w : Walk) : Type 0 where
  pub by_limit : w.found ≤ want.limit
  pub by_scan : w.found ≤ w.scanned
  pub by_cap : w.scanned ≤ max_scan

either :
    {want : Wanted} (b : Bool) {x y : Walk}
    → IsBounded want x
    → IsBounded want y
    → IsBounded want (if b then x else y)
either true p q = p
either false p q = q

module _ (storage : Storage) (d : storage.Disk) (want : Wanted) where
  abbrev Keeps : (Bytes → Bytes → Walk → Walk) → Type 0
  Keeps visit =
      (dev logical : Bytes) (w : Walk) → IsBounded want w → IsBounded want (visit dev logical w)

  note_entry-IsBounded :
      (e : Entry) (dev logical : Bytes) (is_dir : Bool) (w : Walk)
      → IsBounded want w
      → is_full want w ≡ false
      → IsBounded want
          (note_entry storage d want e dev logical is_dir (record w { scanned = w.scanned + 1 }))
  note_entry-IsBounded e dev logical is_dir w b room =
      elim (Bool-cases (is_wanted storage d want e is_dir)) [
        | inl y ↦ rw y (record {
          by_limit = ground (arith, room, b.by_limit);
          by_scan = omega (arith, b.by_scan);
          by_cap = ground (arith, room, b.by_cap);
        })
        | inr n ↦ rw n (record {
          by_limit = b.by_limit;
          by_scan = omega (arith, b.by_scan);
          by_cap = ground (arith, room, b.by_cap);
        })
      ]

  visit_entry-IsBounded :
      (visit : Bytes → Bytes → Walk → Walk) (dev logical : Bytes) (e : Entry) (w : Walk)
      → Keeps visit
      → IsBounded want w
      → is_full want w ≡ false
      → IsBounded want (visit_entry storage d want visit dev logical e w)
  visit_entry-IsBounded visit dev logical e w keep b room =
      let is_dir = walks_into storage d want e.kind (child dev e.name) in
      let noted =
        note_entry-IsBounded e (child dev e.name) (child_of logical e.name) is_dir w b room in
      either is_dir (keep (child dev e.name) (child_of logical e.name) _ noted) noted

  walk_entries-IsBounded :
      (visit : Bytes → Bytes → Walk → Walk) (dev logical : Bytes) (es : List Entry) (w : Walk)
      → Keeps visit
      → IsBounded want w
      → IsBounded want (walk_entries storage d want visit dev logical es w)
  unfolding walk_entries
  walk_entries-IsBounded visit dev logical [] w keep b = b
  walk_entries-IsBounded visit dev logical (e ∷ es) w keep b = elim (Bool-cases (is_full want w)) [
    | inl full ↦ rw full b
    | inr room ↦ rw room (elim (Bool-cases (is_dot e.name)) [
      | inl dot ↦ rw dot (walk_entries-IsBounded visit dev logical es w keep b)
      | inr entry ↦ rw entry (
          walk_entries-IsBounded visit dev logical es _ keep
            (visit_entry-IsBounded visit dev logical e w keep b room))
    ])
  ]

  listed :
      (visit : Bytes → Bytes → Walk → Walk) (o : Option (List Entry)) (dev logical : Bytes)
      (w : Walk)
      → Keeps visit
      → IsBounded want w
      → IsBounded want (or_return o w (λ es. walk_entries storage d want visit dev logical es w))
  listed visit none dev logical w keep b = b
  listed visit (some es) dev logical w keep b = walk_entries-IsBounded visit dev logical es w keep b

  -- A walk that starts within the limit of the matches and the cap of 40000 scanned entries stays
  -- within them, whatever the disk holds, and finds no more than it scans.
  pub walk_find-IsBounded :
      (levels : ℕ) (dev logical : Bytes) (w : Walk)
      → IsBounded want w
      → IsBounded want (walk_find storage d want levels dev logical w)
  unfolding walk_find
  walk_find-IsBounded zero dev logical w b = b
  walk_find-IsBounded (suc levels) dev logical w b = elim (Bool-cases (is_full want w)) [
    | inl full ↦ rw full b
    | inr room ↦ rw room (
        listed (walk_find storage d want levels) (storage.opendir dev d) dev logical w
          (walk_find-IsBounded levels) b)
  ]
