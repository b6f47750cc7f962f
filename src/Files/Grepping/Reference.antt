-- ===== src/Files/Grepping/Reference.antt =====
-- What `FsGrep` reports, against the lines that hold the pattern.
use switch_mcp.Base.{
  ℕ, zero, suc, ◌+◌, Bool, true, false, ◌&&◌, ◌||◌, List, [], ◌∷◌, ◌++◌, ltb, leb, ◌==◌,
  if◌then◌else◌, length, take, take_nil, Bytes, has_prefix, finds, ◌≡◌, refl, sym, ap, ap₂, ◌∙◌,
  arith, Bool-cases, inl, inr, length-append, append-nil,
}
use switch_mcp.Json.Value.{Value, as_bool, as_string, empty_array}
use switch_mcp.Agent.{Request, field_of, bounded_int}
use switch_mcp.Files.Finding.{lower}
use switch_mcp.Files.Grepping.{hits, extend, grep_loop, first_line, search_of}
use switch_mcp.Files.Grepping.Lines.{
  Line, ended_lines, without_returns, searched, is_capital, alike, starts, occurs, holding, told,
}
use switch_mcp.Files.Grepping.Loop.{kept_lines, hitting, reported, grep_loop-from}

without_returns-append :
    (a b : Bytes) → without_returns (a ++ b) ≡ without_returns a ++ without_returns b
without_returns-append [] b = refl
without_returns-append (x ∷ xs) b = elim (Bool-cases (x == 13)) [
  | inl e ↦ rw e (without_returns-append xs b)
  | inr e ↦ rw e (ap (◌∷◌ x) (without_returns-append xs b))
]

-- One character more of what is taken.
take_snoc :
    (n c : ℕ) (xs : Bytes)
    → take n (xs ++ c ∷ [])
      ≡ (if ltb (length (take n xs)) n then take n xs ++ c ∷ [] else take n xs)
take_snoc zero c xs = refl
take_snoc (suc n) c [] =
    let room : ltb 0 (suc n) ≡ true = ground arith in rw (room, take_nil {A = ℕ} n) refl
take_snoc (suc n) c (x ∷ xs) =
    let rest = take_snoc n c xs in
    elim (Bool-cases (ltb (length (take n xs)) n)) [
      | inl e ↦
          let more : ltb (suc (length (take n xs))) (suc n) ≡ true = ground (arith, e) in
          rw more (ap (◌∷◌ x) (rw e at rest))
      | inr e ↦
          let full : ltb (suc (length (take n xs))) (suc n) ≡ false = ground (arith, e) in
          rw full (ap (◌∷◌ x) (rw e at rest))
    ]

searched-append : (c : ℕ) (text : Bytes) → searched (text ++ c ∷ []) ≡ extend c (searched text)
searched-append c text = rw (without_returns-append text (c ∷ [])) (elim (Bool-cases (c == 13)) [
  | inl e ↦ rw e (rw (append-nil (without_returns text)) refl)
  | inr e ↦ rw e (take_snoc 4096 c (without_returns text))
])

-- A line with what is searched of it.
abbrev kept : Line → Line
kept l = record { number = l.number; start = l.start; text = searched l.text }

abbrev keep : List Line → List Line
keep [] = []
keep (l ∷ ls) = kept l ∷ keep ls

kept_lines-ended :
    (text : Bytes) (number start offset : ℕ) (part line : Bytes)
    → offset ≡ start + length part
    → line ≡ searched part
    → kept_lines text number start offset line ≡ keep (ended_lines text number start part)
kept_lines-ended [] number start offset part line o e = refl
kept_lines-ended (c ∷ cs) number start offset part line o e = elim (Bool-cases (c == 10)) [
  | inl ended ↦
      rw (ended, e, o)
        (ap (◌∷◌ (record { number = number; start = start; text = searched part })) (
          kept_lines-ended cs (number + 1) (start + length part + 1) (start + length part + 1) [] []
            (omega arith) refl))
  | inr more ↦ rw more (
      kept_lines-ended cs number start (offset + 1) (part ++ c ∷ []) (extend c line)
        (omega (arith, o, length-append part (c ∷ [])))
        (ap (extend c) e ∙ sym (searched-append c part)))
]

or_false : (b : Bool) (x : Bool) → b ≡ (b || (false && x))
or_false true x = refl
or_false false x = refl

-- The search with the case ignored is one in small letters.
lower-alike :
    (p c : ℕ)
    → ((if leb 65 p && leb p 90 then p + 32 else p) == (if leb 65 c && leb c 90 then c + 32 else c))
      ≡ alike true p c
lower-alike p c = ground arith

starts-lower : (ps text : Bytes) → has_prefix (lower ps) (lower text) ≡ starts true ps text
starts-lower [] text = refl
starts-lower (p ∷ ps) [] = refl
starts-lower (p ∷ ps) (c ∷ cs) = ap₂ (λ a b. a && b) (lower-alike p c) (starts-lower ps cs)

starts_exact : (ps text : Bytes) → has_prefix ps text ≡ starts false ps text
starts_exact [] text = refl
starts_exact (p ∷ ps) [] = refl
starts_exact (p ∷ ps) (c ∷ cs) =
    ap₂ (λ a b. a && b)
      (or_false (p == c) ((is_capital p && c == p + 32) || (is_capital c && p == c + 32)))
      (starts_exact ps cs)

occurs-lower : (ps text : Bytes) → finds (lower ps) (lower text) ≡ occurs true ps text
occurs-lower [] [] = refl
occurs-lower (p ∷ ps) [] = refl
occurs-lower ps (c ∷ cs) = ap₂ (λ a b. a || b) (starts-lower ps (c ∷ cs)) (occurs-lower ps cs)

occurs_exact : (ps text : Bytes) → finds ps text ≡ occurs false ps text
occurs_exact ps [] = refl
occurs_exact ps (c ∷ cs) = ap₂ (λ a b. a || b) (starts_exact ps (c ∷ cs)) (occurs_exact ps cs)

module _ (req : Request) where
  abbrev pattern : Bytes
  pattern = as_string (field_of req "pattern") []

  abbrev ignores : Bool
  ignores = as_bool (field_of req "ignore_case") false

  hits-occurs : (line : Bytes) → hits (search_of req) line ≡ occurs ignores pattern line
  unfolding search_of
  hits-occurs line = elim (Bool-cases ignores) [
    | inl e ↦ rw e (occurs-lower pattern line)
    | inr e ↦ rw e (occurs_exact pattern line)
  ]

  hitting-holding :
      (ls : List Line) → hitting (search_of req) (keep ls) ≡ keep (holding ignores pattern ls)
  hitting-holding [] = refl
  hitting-holding (l ∷ ls) =
      rw (hits-occurs (searched l.text))
        (elim (Bool-cases (occurs ignores pattern (searched l.text))) [
          | inl e ↦ rw e (ap (◌∷◌ (kept l)) (hitting-holding ls))
          | inr e ↦ rw e (hitting-holding ls)
        ])

take-keep : (n : ℕ) (ls : List Line) → take n (keep ls) ≡ keep (take n ls)
take-keep zero ls = refl
take-keep (suc n) [] = refl
take-keep (suc n) (l ∷ ls) = ap (◌∷◌ (kept l)) (take-keep n ls)

reported-told : (ls : List Line) (matches : Value) → reported (keep ls) matches ≡ told ls matches
reported-told [] matches = refl
reported-told (l ∷ ls) matches = reported-told ls _

-- `FsGrep` reports, in their order and up to the limit, exactly the lines that end in a newline and hold
-- the pattern among their first 4096 characters other than carriage returns, the case of letters
-- ignored if the request says so; each with its number, the offset at which it starts and its text, cut
-- behind 300 characters. Text behind the last newline is not searched.
pub grep_loop-reference :
    (req : Request) (text : Bytes)
    → (grep_loop (search_of req) text first_line).matches
      ≡ told
          (take (bounded_int req "limit" 100 1 1000) (
            holding
              (as_bool (field_of req "ignore_case") false)
              (as_string (field_of req "pattern") [])
              (ended_lines text 1 0 [])))
          empty_array
unfolding search_of
grep_loop-reference req text =
    let limit = bounded_int req "limit" 100 1 1000 in
    let lines = ended_lines text 1 0 [] in
    let wanted = holding (ignores req) (pattern req) lines in
    grep_loop-from (search_of req) text first_line limit (omega arith)
    ∙ ap (λ ls. reported (take limit (hitting (search_of req) ls)) empty_array)
        (kept_lines-ended text 1 0 0 [] [] (omega arith) refl)
    ∙ ap (λ ls. reported (take limit ls) empty_array) (hitting-holding req lines)
    ∙ ap (λ ls. reported ls empty_array) (take-keep limit wanted)
    ∙ reported-told (take limit wanted) empty_array
