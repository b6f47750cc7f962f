-- ===== src/Json/Fuel.antt =====
-- The parser's fuel suffices: no call within `parse` stops because it is spent.
use switch_mcp.Base.{
  ℕ, zero, suc, ◌+◌, ◌*◌, ◌≤◌, ◌<◌, Bool, true, false, not, ◌||◌, [], ◌∷◌, ◌++◌, Option, some, none,
  ◌≡◌, ◌⊎◌, refl, subst, arith, ◌==◌, if◌then◌else◌, length, length-append, Bytes, Bool-cases, inl,
  inr, codes,
}
use switch_mcp.Json.Value.{Value, Items, Fields, nil, end, string, boolean, null, push_back, insert}
use switch_mcp.Json.Number.{is_digit}
use switch_mcp.Json.Parse.{
  Parsed, ok, fail, spent, ◌>>=◌, skip_ws, closes, hex4, hex_value, unicode, escape, string_loop,
  parse_string, keyword, is_mark, scan, scan_number, number_of, parse_number, parse_value,
  array_loop, object_loop,
}

-- Not spent, and on success fewer than `n` bytes are left.
abbrev pub Within {ℓ} : {A : Type ℓ} → ℕ → Parsed A → Type 0
Within n (ok a rest) = length rest < n
Within n fail = Unit
Within n spent = ⊥

Within-if {ℓ} :
    {A : Type ℓ} (n : ℕ) (b : Bool) (x y : Parsed A)
    → Within n x
    → Within n y
    → Within n (if b then x else y)
Within-if n true x y hx hy = hx
Within-if n false x y hx hy = hy

Within-bind {ℓ κ} :
    {A : Type ℓ} {B : Type κ} (n k : ℕ) (m : Parsed A) (f : A → Bytes → Parsed B)
    → Within n m
    → ((a : A) (rest : Bytes) → length rest < n → Within k (f a rest))
    → Within k (m >>= f)
Within-bind n k (ok a rest) f h g = g a rest h
Within-bind n k fail f h g = tt
Within-bind n k spent f h g = h

Within-le {ℓ} : {A : Type ℓ} (n k : ℕ) (m : Parsed A) → n ≤ k → Within n m → Within k m
Within-le n k (ok a rest) h w = omega arith
Within-le n k fail h w = tt
Within-le n k spent h w = w

List-cases : (s : Bytes) → (s ≡ []) ⊎ ((c : ℕ) × (cs : Bytes) × (s ≡ c ∷ cs))
List-cases [] = inl refl
List-cases (c ∷ cs) = inr (c, cs, refl)

skip_ws-le : (s : Bytes) → length (skip_ws s) ≤ length s
unfolding skip_ws
skip_ws-le [] = omega arith
skip_ws-le (c ∷ cs) = ground (arith, skip_ws-le cs)

hex4-Within :
    (n : ℕ) (x y z w : Option ℕ) (rest : Bytes) → length rest < n → Within n (hex4 x y z w rest)
hex4-Within n (some a) (some b) (some c) (some d) rest h = h
hex4-Within n _ _ _ _ rest h = tt

unicode-Within : (s : Bytes) → Within (length s) (unicode s)
unfolding unicode
unicode-Within (a ∷ b ∷ c ∷ d ∷ rest) =
    hex4-Within _ (hex_value a) (hex_value b) (hex_value c) (hex_value d) rest (omega arith)
unicode-Within _ = tt

escape-Within : (s : Bytes) → Within (length s) (escape s)
unfolding escape
escape-Within [] = tt
escape-Within (e ∷ cs) = ground (arith, unicode-Within cs)

string_loop-Within :
    (fuel : ℕ) (s out : Bytes) → length s ≤ fuel → Within (length s) (string_loop fuel s out)
unfolding string_loop
string_loop-Within fuel [] out h = tt
string_loop-Within zero (c ∷ cs) out h = absurd (omega arith)
string_loop-Within (suc fuel) (c ∷ cs) out h = Within-if _ (c == 34) _ _ (omega arith) (
    Within-if _ (c == b'\\') _ _
      (Within-bind (length cs) _ (escape cs) _ (escape-Within cs) (λ bs rest l.
        Within-le (length rest) _ _ (omega arith)
          (string_loop-Within fuel rest (out ++ bs) (omega arith))))
      (Within-le (length cs) _ _ (omega arith)
        (string_loop-Within fuel cs (out ++ c ∷ []) (omega arith))))

parse_string-Within : (s : Bytes) → Within (length s) (parse_string s)
unfolding parse_string
parse_string-Within [] = tt
parse_string-Within (c ∷ cs) =
    Within-if _ (not (c == 34)) _ _ tt
      (Within-le (length cs) _ _ (omega arith) (string_loop-Within (length cs) cs [] (omega arith)))

keyword-le : (ws : Bytes) (v : Value) (s : Bytes) → Within (suc (length s)) (keyword ws v s)
keyword-le [] v s = omega arith
keyword-le (w ∷ ws) v [] = tt
keyword-le (w ∷ ws) v (c ∷ cs) =
    Within-if _ (w == c) _ _ (Within-le (suc (length cs)) _ _ (omega arith) (keyword-le ws v cs)) tt

keyword-Within :
    (w : ℕ) (ws : Bytes) (v : Value) (c : ℕ) (cs : Bytes)
    → Within (length (c ∷ cs)) (keyword (w ∷ ws) v (c ∷ cs))
keyword-Within w ws v c cs = Within-if _ (w == c) _ _ (keyword-le ws v cs) tt

-- What a scan took and what it left make up the text.
abbrev Sums : ℕ → Bytes × Bool × Bytes → Type 0
Sums n (num, is_double, rest) = length num + length rest ≡ n

scan-Sums : (s num : Bytes) (b : Bool) → Sums (length num + length s) (scan num b s)
unfolding scan
scan-Sums [] num b = refl
scan-Sums (c ∷ cs) num b = elim (Bool-cases (is_digit c || is_mark c)) [
  | inl h ↦ rw h (
      subst (λ n. Sums n (scan (num ++ c ∷ []) (b || not (is_digit c)) cs))
        (omega (arith, length-append num (c ∷ [])))
        (scan-Sums cs (num ++ c ∷ []) (b || not (is_digit c))))
  | inr h ↦ rw h refl
]

scan_number-Sums : (s : Bytes) → Sums (length s) (scan_number s)
unfolding scan_number
scan_number-Sums [] = refl
scan_number-Sums (c ∷ cs) = elim (Bool-cases (c == b'-' || c == b'+')) [
  | inl h ↦
      rw h
        (subst (λ n. Sums n (scan (c ∷ []) false cs)) (omega arith) (scan-Sums cs (c ∷ []) false))
  | inr h ↦
      rw h
        (subst (λ n. Sums n (scan [] false (c ∷ cs))) (omega arith) (scan-Sums (c ∷ cs) [] false))
]

-- The two matches that the loops make on the text.
Within-uncons :
    {A : Type 0} (n : ℕ) (s : Bytes) (f : ℕ → Bytes → Parsed A)
    → ((c : ℕ) (cs : Bytes) → length cs < length s → Within n (f c cs))
    → Within n (elim s [ [] ↦ fail | c ∷ cs ↦ f c cs ])
Within-uncons n [] f h = tt
Within-uncons n (c ∷ cs) f h = h c cs (omega arith)

Within-closes :
    {A : Type 0} (n mark : ℕ) (s : Bytes) (f : Bytes → Parsed A) (m : Parsed A)
    → ((rest : Bytes) → length rest < length s → Within n (f rest))
    → Within n m
    → Within n (elim (closes mark s) [ some rest ↦ f rest | none ↦ m ])
unfolding closes
Within-closes n mark [] f m h w = w
Within-closes n mark (c ∷ cs) f m h w = elim (Bool-cases (c == mark)) [
  | inl e ↦ rw e (h cs (omega arith))
  | inr e ↦ rw e w
]

module _ (strtod : Bytes → ℕ) where
  number_of-Within :
      (num : Bytes) (is_double : Bool) (rest : Bytes) (n : ℕ)
      → length num + length rest ≡ n
      → Within n (number_of strtod num is_double rest)
  unfolding number_of
  number_of-Within [] is_double rest n h = tt
  number_of-Within (c ∷ num) true rest n h = omega arith
  number_of-Within (c ∷ num) false rest n h = omega arith

  parse_number-Within : (s : Bytes) → Within (length s) (parse_number strtod s)
  unfolding parse_number
  parse_number-Within s =
      let (num, is_double, rest) = scan_number s in
      number_of-Within num is_double rest (length s) (scan_number-Sums s)

  scalar-Within :
      (c : ℕ) (cs : Bytes)
      → Within (length (c ∷ cs)) (
          if c == 34
          then (parse_string (c ∷ cs) >>= λ str rest. ok (string str) rest)
          else if c == b't'
          then keyword (codes "true") (boolean true) (c ∷ cs)
          else if c == b'f'
          then keyword (codes "false") (boolean false) (c ∷ cs)
          else if c == b'n'
          then keyword (codes "null") null (c ∷ cs)
          else parse_number strtod (c ∷ cs))
  scalar-Within c cs =
      Within-if _ (c == 34) _ _
        (Within-bind _ _ (parse_string (c ∷ cs)) _ (parse_string-Within (c ∷ cs)) (λ str rest l. l))
        (Within-if _ (c == b't') _ _ (keyword-Within b't' (codes "rue") (boolean true) c cs) (
          Within-if _ (c == b'f') _ _ (keyword-Within b'f' (codes "alse") (boolean false) c cs) (
            Within-if _ (c == b'n') _ _ (keyword-Within b'n' (codes "ull") null c cs)
              (parse_number-Within (c ∷ cs)))))

  mutual
    unfolding parse_value

    parse_value-Within :
        (fuel : ℕ) (s : Bytes) → 2 * length s < fuel → Within (length s) (parse_value strtod fuel s)
    parse_value-Within zero s h = absurd (omega arith)
    parse_value-Within (suc fuel) s h = Within-uncons _ (skip_ws s) _ (λ c cs l.
        Within-if _ (c == b'{') _ _
          (Within-closes _ b'}' (skip_ws cs) _ _
            (λ rest k. omega (arith, skip_ws-le s, skip_ws-le cs))
            (Within-le (length (skip_ws cs)) _ _ (omega (arith, skip_ws-le s, skip_ws-le cs)) (
              object_loop-Within fuel (skip_ws cs) end
                (omega (arith, skip_ws-le s, skip_ws-le cs)))))
          (Within-if _ (c == b'[') _ _
            (Within-closes _ b']' (skip_ws cs) _ _
              (λ rest k. omega (arith, skip_ws-le s, skip_ws-le cs))
              (Within-le (length (skip_ws cs)) _ _ (omega (arith, skip_ws-le s, skip_ws-le cs)) (
                array_loop-Within fuel (skip_ws cs) nil
                  (omega (arith, skip_ws-le s, skip_ws-le cs)))))
            (Within-le (length (c ∷ cs)) _ _ (omega (arith, skip_ws-le s)) (scalar-Within c cs))))

    array_loop-Within :
        (fuel : ℕ) (s : Bytes) (out : Items)
        → 2 * length s + 1 < fuel
        → Within (length s) (array_loop strtod fuel s out)
    array_loop-Within zero s out h = absurd (omega arith)
    array_loop-Within (suc fuel) s out h =
        Within-bind (length s) _ (parse_value strtod fuel s) _
          (parse_value-Within fuel s (omega arith))
          (λ v rest l. Within-uncons _ (skip_ws rest) _ (λ c cs k.
            Within-if _ (c == b',') _ _
              (Within-le (length cs) _ _ (omega (arith, skip_ws-le rest))
                (array_loop-Within fuel cs (push_back out v) (omega (arith, skip_ws-le rest))))
              (Within-if _ (c == b']') _ _ (omega (arith, skip_ws-le rest)) tt)))

    object_loop-Within :
        (fuel : ℕ) (s : Bytes) (out : Fields)
        → 2 * length s + 1 < fuel
        → Within (length s) (object_loop strtod fuel s out)
    object_loop-Within zero s out h = absurd (omega arith)
    object_loop-Within (suc fuel) s out h =
        Within-bind (length (skip_ws s)) _ (parse_string (skip_ws s)) _
          (parse_string-Within (skip_ws s))
          (λ key behind q.
            Within-closes _ b':' (skip_ws behind) _ fail
              (λ after r.
                Within-bind (length after) _ (parse_value strtod fuel after) _
                  (parse_value-Within fuel after (omega (arith, skip_ws-le s, skip_ws-le behind)))
                  (λ v rest l. Within-uncons _ (skip_ws rest) _ (λ c cs k.
                    let short : length cs + 3 < length s =
                      omega (arith, skip_ws-le s, skip_ws-le behind, skip_ws-le rest) in
                    Within-if _ (c == b',') _ _
                      (Within-le (length cs) _ _ (omega arith)
                        (object_loop-Within fuel cs (insert key v out) (omega arith)))
                      (Within-if _ (c == b'}') _ _ (omega arith) tt))))
              tt)

  -- With twice the length of the text and one unit more, `parse_value` ends: it returns a value and
  -- leaves fewer bytes than it was given, or it refuses the text.
  pub parse_value_ends :
      (fuel : ℕ) (s : Bytes) → 2 * length s < fuel → Within (length s) (parse_value strtod fuel s)
  parse_value_ends = parse_value-Within
