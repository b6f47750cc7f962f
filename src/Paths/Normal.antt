-- ===== src/Paths/Normal.antt =====
-- What `NormalizePath` returns: the shape of its result, and that it is a fixed point.
use switch_mcp.Base.{
  ℕ, Bool, true, false, List, [], ◌∷◌, ◌++◌, Option, none, some, ◌≡◌, refl, ap, sym, ◌∙◌, ◌==◌,
  if◌then◌else◌, Bytes, codes, eq, Bool-cases, inl, inr, All, Option-cases, subst, eq_of_some,
}
use switch_mcp.Paths.{is_kept, join, normalize_path, rooted, map_rooted}
use switch_mcp.Paths.Split.{onto_first, split, kept, consed, reference, normalize_path-reference}

abbrev pub has_slash : Bytes → Bool
has_slash [] = false
has_slash (c ∷ cs) = if c == b'/' then true else has_slash cs

-- A name of one directory level: not empty, not ".", not "..", and with no slash in it.
pub record IsClean (s : Bytes) : Type 0 where
  pub no_slash : has_slash s ≡ false
  pub kept_part : is_kept s ≡ true
  pub not_up : eq s (codes "..") ≡ false

-- A slash, and then clean names joined by single slashes.
pub record IsNormal (p : Bytes) : Type 0 where
  pub parts : List Bytes
  pub shape : p ≡ rooted parts
  pub clean : All IsClean parts

Slashless : List Bytes → Type 0
Slashless = All (λ s. has_slash s ≡ false)

onto_first-Slashless :
    (c : ℕ) (ss : List Bytes) → (c == b'/') ≡ false → Slashless ss → Slashless (onto_first c ss)
unfolding Slashless
onto_first-Slashless c [] h a = (rw h, tt)
onto_first-Slashless c (s ∷ ss) h a = (rw h a.0, a.1)

split-Slashless : (cs : Bytes) → Slashless (split cs)
unfolding Slashless
split-Slashless [] = (refl, tt)
split-Slashless (c ∷ cs) = elim (Bool-cases (c == b'/')) [
  | inl h ↦ rw h (refl, split-Slashless cs)
  | inr h ↦ rw h (onto_first-Slashless c (split cs) h (split-Slashless cs))
]

kept-IsClean :
    (ss : List Bytes) {ps : List Bytes} → Slashless ss → kept ss ≡ some ps → All IsClean ps
unfolding Slashless
kept-IsClean [] {ps} a e = subst (All IsClean) (eq_of_some e) tt
kept-IsClean (s ∷ ss) a e = elim (Bool-cases (eq s (codes ".."))) [
  | inl up ↦ cc (rw up at e)
  | inr up ↦ elim (Option-cases (kept ss)) [
    | inl n ↦ cc (rw (up, n) at e)
    | inr (qs, n) ↦ elim (Bool-cases (is_kept s)) [
      | inl k ↦
          subst (All IsClean) (eq_of_some (rw (up, n, k) at e))
            (record { no_slash = a.0; kept_part = k; not_up = up }, kept-IsClean ss a.1 n)
      | inr k ↦ subst (All IsClean) (eq_of_some (rw (up, n, k) at e)) (kept-IsClean ss a.1 n)
    ]
  ]
]

kept-All : (ps : List Bytes) → All IsClean ps → kept ps ≡ some ps
kept-All [] a = refl
kept-All (p ∷ ps) a = rw (a.0.not_up, kept-All ps a.1, a.0.kept_part)

split-append :
    (s : Bytes) (cs : Bytes) → has_slash s ≡ false → split (s ++ (b'/' ∷ cs)) ≡ s ∷ split cs
split-append [] cs h = refl
split-append (c ∷ s) cs h = elim (Bool-cases (c == b'/')) [
  | inl e ↦ cc (rw e at h)
  | inr e ↦ rw e (ap (onto_first c) (split-append s cs (rw e at h)))
]

split_slashless : (s : Bytes) → has_slash s ≡ false → split s ≡ s ∷ []
split_slashless [] h = refl
split_slashless (c ∷ s) h = elim (Bool-cases (c == b'/')) [
  | inl e ↦ cc (rw e at h)
  | inr e ↦ rw e (ap (onto_first c) (split_slashless s (rw e at h)))
]

kept-join : (ps : List Bytes) → All IsClean ps → kept (split (join ps)) ≡ some ps
unfolding join
kept-join [] a = refl
kept-join (p ∷ []) a = rw (split_slashless p a.0.no_slash) (kept-All (p ∷ []) a)
kept-join (p ∷ q ∷ ps) a =
    rw (split-append p (join (q ∷ ps)) a.0.no_slash)
      (rw (a.0.not_up, kept-join (q ∷ ps) a.1, a.0.kept_part))

guarded_some :
    (b : Bool) (o : Option (List Bytes)) {out : Bytes}
    → (if b then map_rooted o else none) ≡ some out
    → (ps : List Bytes) × (o ≡ some ps) × (out ≡ rooted ps)
guarded_some true none e = cc
guarded_some true (some ps) e = (ps, refl, sym (eq_of_some e))
guarded_some false o e = cc

reference-some :
    (p : Bytes) {out : Bytes}
    → reference p ≡ some out
    → (ps : List Bytes) × (kept (split p) ≡ some ps) × (out ≡ rooted ps)
reference-some [] e = cc
reference-some (c ∷ cs) e = guarded_some (c == b'/') (kept (split (c ∷ cs))) e

-- Every path that `NormalizePath` returns is a slash followed by clean names joined by single
-- slashes: no name is empty, ".", or "..", and none holds a slash.
pub normalize_path-IsNormal : (p : Bytes) {out : Bytes} → normalize_path p ≡ some out → IsNormal out
normalize_path-IsNormal p e =
    let (ps, k, o) = reference-some p (sym (normalize_path-reference p) ∙ e) in
    record { parts = ps; shape = o; clean = kept-IsClean (split p) (split-Slashless p) k }

-- `NormalizePath` returns a path in that shape as it is.
pub normalize_path_fixed : (out : Bytes) → IsNormal out → normalize_path out ≡ some out
normalize_path_fixed out n = rw n.shape (
    normalize_path-reference (rooted n.parts)
    ∙ ap (λ o. map_rooted (consed false [] o)) (kept-join n.parts n.clean))

-- Normalising a second time changes nothing.
pub normalize_path_idem :
    (p : Bytes) {out : Bytes} → normalize_path p ≡ some out → normalize_path out ≡ some out
normalize_path_idem p {out} e = normalize_path_fixed out (normalize_path-IsNormal p e)
