-- ===== src/Base/Text.antt =====
-- `std::string` as a list of bytes.
use Prim.Native.Nat.{ℕ, compare, Ordering}
use Prim.Native.Char.{code}
use Prim.Native.String.{String}
use mathlib.Core.Path.{◌≡◌, refl, sym, ap, ap₂}
use mathlib.Core.Logic.{◌↔◌, ◌⊎◌, inl, inr}
use mathlib.Core.List.{List, [], ◌∷◌, ◌++◌}
use mathlib.Core.Bool.{Bool, true, false, ◌&&◌, ◌||◌}
use native.Mathlib.Omega.{arith}
use switch_mcp.Base.Tests.{◌==◌, ==_iff, &&-eq-true}

abbrev pub Bytes : Type 0
Bytes = List ℕ

-- The bytes of a literal, which is ASCII wherever it is used.
abbrev pub codes : String → Bytes
codes String.[] = []
codes (String.◌∷◌ c s) = code c ∷ codes s

-- `operator==` of strings.
abbrev pub eq : Bytes → Bytes → Bool
eq [] [] = true
eq [] (y ∷ ys) = false
eq (x ∷ xs) [] = false
eq (x ∷ xs) (y ∷ ys) = x == y && eq xs ys

pub eq_iff : (a b : Bytes) → (eq a b ≡ true) ↔ (a ≡ b)
eq_iff [] [] = ground arith
eq_iff [] (y ∷ b) = ground arith
eq_iff (x ∷ a) [] = ground arith
eq_iff (x ∷ a) (y ∷ b) = ground (arith, eq_iff a b)

pub eq_refl : (a : Bytes) → eq a a ≡ true
eq_refl a = (eq_iff a a).1 refl

abbrev pub is_empty : Bytes → Bool
is_empty [] = true
is_empty (x ∷ xs) = false

-- `operator<` of strings: lexicographic on unsigned bytes.
abbrev pub before : Bytes → Bytes → Bool
before [] [] = false
before [] (y ∷ ys) = true
before (x ∷ xs) [] = false
before (x ∷ xs) (y ∷ ys) = elim (compare x y) [
  | Ordering.lt ↦ true
  | Ordering.eq ↦ before xs ys
  | Ordering.gt ↦ false
]

abbrev pub has_prefix : Bytes → Bytes → Bool
has_prefix [] s = true
has_prefix (x ∷ xs) [] = false
has_prefix (x ∷ xs) (y ∷ ys) = x == y && has_prefix xs ys

-- `find(needle) != npos` of strings.
abbrev pub finds : Bytes → Bytes → Bool
finds needle [] = is_empty needle
finds needle (c ∷ cs) = has_prefix needle (c ∷ cs) || finds needle cs

same_cons : (x y : ℕ) (xs ys : Bytes) → x ∷ xs ≡ y ∷ ys → (x ≡ y) × (xs ≡ ys)
same_cons x y xs ys e = (cc, cc)

&&_true : (a b : Bool) → a ≡ true → b ≡ true → (a && b) ≡ true
&&_true a b p q = ground arith

||_true : (a b : Bool) → (a || b) ≡ true → (a ≡ true) ⊎ (b ≡ true)
||_true true b e = inl refl
||_true false b e = inr e

pub has_prefix_iff : (p s : Bytes) → (has_prefix p s ≡ true) ↔ ((rest : Bytes) × (s ≡ p ++ rest))
has_prefix_iff [] s = (λ e. (s, refl), λ found. refl)
has_prefix_iff (x ∷ xs) [] = (λ e. cc e, λ found. cc found.1)
has_prefix_iff (x ∷ xs) (y ∷ ys) = (
  λ e.
      let (head, tail) = &&-eq-true (x == y) (has_prefix xs ys) e in
      let (rest, q) = (has_prefix_iff xs ys).0 tail in
      (rest, ap₂ (λ c cs. c ∷ cs) (sym ((==_iff x y).0 head)) q),
  λ found.
      let (head, tail) = same_cons y x ys (xs ++ found.0) found.1 in
      &&_true (x == y) (has_prefix xs ys) ((==_iff x y).1 (sym head))
        ((has_prefix_iff xs ys).1 (found.0, tail)),
)

-- Where a text holds another.
pub record Holds (needle text : Bytes) : Type 0 where
  pub front : Bytes
  pub rest : Bytes
  pub split : text ≡ front ++ (needle ++ rest)

found_later : (needle text : Bytes) (c : ℕ) → Holds needle text → Holds needle (c ∷ text)
found_later needle text c h = record {
  front = c ∷ h.front;
  rest = h.rest;
  split = ap (◌∷◌ c) h.split;
}

pub finds-Holds : (needle text : Bytes) → finds needle text ≡ true → Holds needle text
finds-Holds [] [] e = record { front = []; rest = []; split = refl }
finds-Holds (x ∷ xs) [] e = cc e
finds-Holds needle (c ∷ cs) e = elim (||_true (has_prefix needle (c ∷ cs)) (finds needle cs) e) [
  | inl here ↦
      let (rest, q) = (has_prefix_iff needle (c ∷ cs)).0 here in
      record { front = []; rest = rest; split = q }
  | inr later ↦ found_later needle cs c (finds-Holds needle cs later)
]

no_prefix : (needle : Bytes) (rest : Bytes) → [] ≡ needle ++ rest → is_empty needle ≡ true
no_prefix [] rest e = refl
no_prefix (x ∷ xs) rest e = cc e

finds_split :
    (needle text front rest : Bytes) → text ≡ front ++ (needle ++ rest) → finds needle text ≡ true
finds_split needle [] [] rest e = no_prefix needle rest e
finds_split needle [] (x ∷ front) rest e = cc e
finds_split needle (c ∷ cs) [] rest e =
    let here = (has_prefix_iff needle (c ∷ cs)).1 (rest, e) in rw here refl
finds_split needle (c ∷ cs) (x ∷ front) rest e =
    let later = finds_split needle cs front rest ((same_cons c x cs _ e).1) in ground (arith, later)

pub Holds-finds : (needle text : Bytes) → Holds needle text → finds needle text ≡ true
Holds-finds needle text h = finds_split needle text h.front h.rest h.split
