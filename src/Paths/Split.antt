-- ===== src/Paths/Split.antt =====
-- The loop of `NormalizePath` against a split of the whole text at its slashes.
use switch_mcp.Base.{
  ℕ, zero, suc, ◌≤◌, Bool, true, false, List, [], ◌∷◌, ◌++◌, append-nil, append_assoc, Option, none,
  some, ◌≡◌, ◌⊎◌, refl, ap, sym, ◌∙◌, arith, ◌==◌, if◌then◌else◌, length, Bytes, codes, eq,
  Bool-cases, inl, inr,
}
use switch_mcp.Paths.{first_segment, after_segment, is_kept, collect, normalize_path, map_rooted}

abbrev pub onto_first : ℕ → List Bytes → List Bytes
onto_first c [] = (c ∷ []) ∷ []
onto_first c (s ∷ ss) = (c ∷ s) ∷ ss

-- The text between slashes, empty pieces included.
abbrev pub split : Bytes → List Bytes
split [] = [] ∷ []
split (c ∷ cs) = if c == b'/' then [] ∷ split cs else onto_first c (split cs)

abbrev pub consed : Bool → Bytes → Option (List Bytes) → Option (List Bytes)
consed b s none = none
consed b s (some ss) = some (if b then s ∷ ss else ss)

-- The pieces that stay, unless one of them is "..".
abbrev pub kept : List Bytes → Option (List Bytes)
kept [] = some []
kept (s ∷ ss) = if eq s (codes "..") then none else consed (is_kept s) s (kept ss)

abbrev pub reference : Bytes → Option Bytes
reference [] = none
reference (c ∷ cs) = if c == b'/' then map_rooted (kept (split (c ∷ cs))) else none

abbrev onto : List Bytes → Option (List Bytes) → Option (List Bytes)
onto parts none = none
onto parts (some ss) = some (parts ++ ss)

split-ne_nil : (cs : Bytes) → (s : Bytes) × (ss : List Bytes) × (split cs ≡ s ∷ ss)
split-ne_nil [] = ([], [], refl)
split-ne_nil (c ∷ cs) =
    let (s, ss, e) = split-ne_nil cs in
    elim (Bool-cases (c == b'/')) [ inl h ↦ ([], split cs, rw h) | inr h ↦ (c ∷ s, ss, rw (h, e)) ]

-- A text with no slash has one piece; the loop then stops, with nothing left.
split-first :
    (cs : Bytes)
    → (split cs ≡ first_segment cs ∷ split (after_segment cs))
      ⊎ ((split cs ≡ first_segment cs ∷ []) × (after_segment cs ≡ []))
unfolding first_segment after_segment
split-first [] = inr (refl, refl)
split-first (c ∷ cs) = elim (Bool-cases (c == b'/')) [
  | inl h ↦ inl (rw h)
  | inr h ↦ rw h (elim (split-first cs) [
    | inl e ↦ inl (ap (onto_first c) e)
    | inr (e, a) ↦ inr (ap (onto_first c) e, a)
  ])
]

kept-split : (cs : Bytes) → kept (split cs) ≡ kept (first_segment cs ∷ split (after_segment cs))
kept-split cs = elim (split-first cs) [ inl e ↦ ap kept e | inr (e, a) ↦ rw (e, a) ]

length-after_segment : (cs : Bytes) → length (after_segment cs) ≤ length cs
unfolding after_segment
length-after_segment [] = omega arith
length-after_segment (c ∷ cs) = ground (arith, length-after_segment cs)

length-after_segment_lt : (c : ℕ) (cs : Bytes) → length (after_segment (c ∷ cs)) ≤ length cs
unfolding after_segment
length-after_segment_lt c cs = ground (arith, length-after_segment cs)

onto-consed :
    (b : Bool) (parts : List Bytes) (s : Bytes) (o : Option (List Bytes))
    → onto (if b then parts ++ s ∷ [] else parts) o ≡ onto parts (consed b s o)
onto-consed true parts s none = refl
onto-consed true parts s (some ss) = ap some (append_assoc parts (s ∷ []) ss)
onto-consed false parts s none = refl
onto-consed false parts s (some ss) = refl

pub collect-kept :
    (fuel : ℕ) (cs : Bytes) (parts : List Bytes)
    → length cs ≤ fuel
    → collect fuel cs parts ≡ onto parts (kept (split cs))
unfolding collect
collect-kept fuel [] parts h = ap some (sym (append-nil parts))
collect-kept zero (c ∷ cs) parts h = absurd (omega arith)
collect-kept (suc fuel) (c ∷ cs) parts h =
    let seg = first_segment (c ∷ cs) in
    let tail = after_segment (c ∷ cs) in
    let ih =
      collect-kept fuel tail (if is_kept seg then parts ++ seg ∷ [] else parts)
        (omega (arith, length-after_segment_lt c cs)) in
    rw (kept-split (c ∷ cs)) (elim (Bool-cases (eq seg (codes ".."))) [
      | inl up ↦ rw up
      | inr up ↦ rw up (ih ∙ onto-consed (is_kept seg) parts seg (kept (split tail)))
    ])

onto-nil : (o : Option (List Bytes)) → onto [] o ≡ o
onto-nil none = refl
onto-nil (some ss) = refl

-- `NormalizePath` accepts a text exactly when it starts with a slash and no piece of it between
-- slashes is ".."; its result is a slash and then the pieces that are neither empty nor ".",
-- joined by slashes.
pub normalize_path-reference : (p : Bytes) → normalize_path p ≡ reference p
unfolding normalize_path
normalize_path-reference [] = refl
normalize_path-reference (c ∷ cs) = elim (Bool-cases (c == b'/')) [
  | inl h ↦ rw h (
      ap map_rooted (
        collect-kept (length (c ∷ cs)) (c ∷ cs) [] (omega arith)
        ∙ onto-nil (kept (split (c ∷ cs)))
        ∙ rw h))
  | inr h ↦ rw h
]
