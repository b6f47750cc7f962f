-- ===== src/Files/Copying/Kept.antt =====
-- A copy of a tree ends, and writes only below its destination.
use switch_mcp.Base.{
  ℕ, zero, suc, ◌+◌, ◌≤◌, ◌<◌, Bool, true, false, ◌&&◌, List, [], ◌∷◌, ◌++◌, append_assoc,
  append-nil, Option-cases, Option, none, some, ◌≡◌, refl, sym, ◌∙◌, ap, arith, length,
  length-append, take, drop, Bytes, Bool-cases, inl, inr,
}
use switch_mcp.Files.{Entry, Stat, Opened, Storage}
use switch_mcp.Files.Reading.{is_dot, child}
use switch_mcp.Files.Copying.{
  copy_buffer_size, copy_rounds, rounds_of, copy_opened, copy_file, and_rest, copy_entry,
  copy_entries, copy_tree,
}

pub record IsBelow (dst p : Bytes) : Type 0 where
  pub rest : Bytes
  pub joined : p ≡ dst ++ rest

-- A property of the disk that the calls of a copy keep on paths that continue `dst`.
pub record KeptBelow (storage : Storage) (dst : Bytes) (P : storage.Disk → Type 0) : Type 0 where
  pub by_mkdir : (p : Bytes) (d : storage.Disk) → IsBelow dst p → P d → P ((storage.mkdir p d).1)
  pub by_truncation :
      (p : Bytes) (d : storage.Disk) → IsBelow dst p → P d → P ((storage.open_truncated p d).1)
  pub by_writing :
      (p : Bytes) (at : ℕ) (bs : Bytes) (d : storage.Disk)
      → IsBelow dst p
      → P d
      → P ((storage.write_at p at bs d).1)

IsBelow-self : (dst : Bytes) → IsBelow dst dst
IsBelow-self dst = record { rest = []; joined = sym (append-nil dst) }

IsBelow-child : {dst p : Bytes} (name : Bytes) → IsBelow dst p → IsBelow dst (child p name)
IsBelow-child {dst} {p} name b = record {
  rest = b.rest ++ (b'/' ∷ name);
  joined = ap (λ x. x ++ (b'/' ∷ name)) b.joined ∙ append_assoc dst b.rest (b'/' ∷ name);
}

module _ (storage : Storage) (root : Bytes) (P : storage.Disk → Type 0)
    (keep : KeptBelow storage root P) where
  open storage use {Disk}

  copy_rounds-Kept :
      (rounds : ℕ) (dst : Bytes) (at : ℕ) (text : Bytes) (d : Disk)
      → IsBelow root dst
      → P d
      → P (copy_rounds storage rounds dst at text d)
  unfolding copy_rounds
  copy_rounds-Kept zero dst at text d b p = p
  copy_rounds-Kept (suc rounds) dst at text d b p =
      copy_rounds-Kept rounds dst _ (drop copy_buffer_size text) _ b
        (keep.by_writing dst at (take copy_buffer_size text) d b p)

  copy_opened-Kept :
      (o : Option Opened) (dst : Bytes) (r : Bool × Disk)
      → IsBelow root dst
      → P r.1
      → P ((copy_opened storage o dst r).1)
  copy_opened-Kept none dst (opened, d) b p = p
  copy_opened-Kept (some f) dst (false, d) b p = p
  copy_opened-Kept (some f) dst (true, d) b p =
      copy_rounds-Kept (rounds_of storage f.text) dst 0 f.text d b p

  -- The copy has ended, and the property holds.
  abbrev Ends : Option (Bool × Disk) → Type 0
  Ends none = ⊥
  Ends (some (ok, d)) = P d

  abbrev Visits : ℕ → (Bytes → Bytes → Disk → Option (Bool × Disk)) → Type 0
  Visits n visit =
      (src dst : Bytes) (d : Disk)
      → n < length src
      → IsBelow root dst
      → P d
      → Ends (visit src dst d)

  and_rest-Ends :
      (ok : Bool) (o : Option (Bool × Disk)) (rest : Bool → Disk → Option (Bool × Disk))
      → Ends o
      → ((ok : Bool) (d : Disk) → P d → Ends (rest ok d))
      → Ends (and_rest storage ok o rest)
  and_rest-Ends ok none rest never more = elim never [ ]
  and_rest-Ends ok (some (ok', d)) rest p more = more (ok && ok') d p

  copy_entry-Ends :
      (n : ℕ) (visit : Bytes → Bytes → Disk → Option (Bool × Disk)) (src dst : Bytes) (d : Disk)
      (o : Option Stat)
      → Visits n visit
      → n < length src
      → IsBelow root dst
      → P d
      → Ends (copy_entry storage visit src dst d o)
  unfolding copy_file
  copy_entry-Ends n visit src dst d none v long b p = p
  copy_entry-Ends n visit src dst d (some st) v long b p = elim (Bool-cases st.is_dir) [
    | inl y ↦ rw y (v src dst d long b p)
    | inr f ↦ rw f (
        copy_opened-Kept (storage.open_read src d) dst (storage.open_truncated dst d) b
          (keep.by_truncation dst d b p))
  ]

  copy_entries-Ends :
      (n : ℕ) (visit : Bytes → Bytes → Disk → Option (Bool × Disk)) (src dst : Bytes)
      (es : List Entry) (ok : Bool) (d : Disk)
      → Visits n visit
      → n ≤ length src
      → IsBelow root dst
      → P d
      → Ends (copy_entries storage visit src dst es ok d)
  unfolding copy_entries
  copy_entries-Ends n visit src dst [] ok d v long b p = p
  copy_entries-Ends n visit src dst (e ∷ es) ok d v long b p = elim (Bool-cases (is_dot e.name)) [
    | inl dot ↦ rw dot (copy_entries-Ends n visit src dst es ok d v long b p)
    | inr entry ↦ rw entry (
        and_rest-Ends ok _ (copy_entries storage visit src dst es)
          (copy_entry-Ends n visit (child src e.name) (child dst e.name) d _ v
            (omega (arith, long, length-append src (b'/' ∷ e.name))) (IsBelow-child e.name b) p)
          (λ ok' d' p'. copy_entries-Ends n visit src dst es ok' d' v long b p'))
  ]

  module _ (max_path : ℕ)
      (short : (p : Bytes) (d : Disk) (es : List Entry)
        → storage.opendir p d ≡ some es
        → length p ≤ max_path) where
    copy_tree-Ends :
        (fuel : ℕ) (src dst : Bytes) (d : Disk)
        → 0 < fuel
        → max_path + 1 < length src + fuel
        → IsBelow root dst
        → P d
        → Ends (copy_tree storage fuel src dst d)
    unfolding copy_tree
    copy_tree-Ends zero src dst d some_fuel enough b p = elim some_fuel [ ]
    copy_tree-Ends (suc fuel) src dst d some_fuel enough b p =
        let made = (storage.mkdir dst d).1 in
        let kept : P made = keep.by_mkdir dst d b p in
        elim (Option-cases (storage.opendir src made)) [
          | inl e ↦ rw e kept
          | inr (es, e) ↦
              let fits = short src made es e in
              rw e (
                copy_entries-Ends (length src) (copy_tree storage fuel) src dst es true made
                  (λ s t d' longer b' p'.
                    copy_tree-Ends fuel s t d' (omega (arith, fits, enough))
                      (omega (arith, longer, fits, enough)) b' p')
                  (omega arith) b kept)
        ]

    value_of :
        (o : Option (Bool × Disk)) → Ends o → (ok : Bool) × (d : Disk) × (o ≡ some (ok, d)) × P d
    value_of none never = elim never [ ]
    value_of (some (ok, d)) p = (ok, d, refl, p)

    -- On a file system that opens no directory with a path longer than `max_path`, a copy ends once the fuel
    -- exceeds that length by two, however deep the tree is; and it keeps every property of the disk
    -- that is kept by the calls on paths which continue the path of its destination.
    pub copy_tree-Kept :
        (fuel : ℕ) (src : Bytes) (d : Disk)
        → max_path + 1 < fuel
        → P d
        → (ok : Bool) × (d' : Disk) × (copy_tree storage fuel src root d ≡ some (ok, d')) × P d'
    copy_tree-Kept fuel src d enough p = value_of _ (
        copy_tree-Ends fuel src root d (omega (arith, enough)) (omega (arith, enough))
          (IsBelow-self root) p)
