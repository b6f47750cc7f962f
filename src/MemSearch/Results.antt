-- ===== src/MemSearch/Results.antt =====
-- What `search.results` shows.
use switch_mcp.Base.{
  ℕ, zero, suc, ◌+◌, ◌≤◌, true, false, List, [], ◌∷◌, ◌≡◌, refl, arith, ltb, leb, if◌then◌else◌,
  length, take, Bytes, Bool-cases, inl, inr, ◌∙◌,
}
use switch_mcp.Json.Value.{Value, push, empty_array}
use switch_mcp.MemSearch.{Candidate}
use switch_mcp.MemSearch.Requests.{candidate_json, list_results}

-- The entries of a list of candidates behind those of an array.
abbrev pub listed : (ℕ → Bytes) → List Candidate → Value → Value
listed print_hex [] arr = arr
listed print_hex (c ∷ cs) arr = listed print_hex cs (push arr (candidate_json c print_hex))

list_results_count :
    (print_hex : ℕ → Bytes) (limit n : ℕ) (cs : List Candidate) (arr : Value)
    → n ≤ limit
    → (list_results print_hex limit cs n arr).1
      ≡ (if ltb limit (n + length cs) then limit + 1 else n + length cs)
unfolding list_results
list_results_count print_hex limit n [] arr le = ground arith
list_results_count print_hex limit n (c ∷ cs) arr le = elim (Bool-cases (leb limit n)) [
  | inl e ↦ rw e (ground (arith, e, le))
  | inr e ↦ rw e (
      list_results_count print_hex limit (n + 1) cs (push arr (candidate_json c print_hex))
        (ground (arith, e, le))
      ∙ ground arith)
]

list_results_array :
    (print_hex : ℕ → Bytes) (room limit n : ℕ) (cs : List Candidate) (arr : Value)
    → limit ≡ n + room
    → (list_results print_hex limit cs n arr).0 ≡ listed print_hex (take room cs) arr
unfolding list_results
list_results_array print_hex zero limit n [] arr e = refl
list_results_array print_hex (suc room) limit n [] arr e = refl
list_results_array print_hex zero limit n (c ∷ cs) arr e =
    let full : leb limit n ≡ true = ground (arith, e) in rw full refl
list_results_array print_hex (suc room) limit n (c ∷ cs) arr e =
    let more : leb limit n ≡ false = ground (arith, e) in
    rw more (
      list_results_array print_hex room limit (n + 1) cs (push arr (candidate_json c print_hex))
        (omega (arith, e)))

-- The array holds the first `limit` candidates. The count beside it is right while there are no more
-- than `limit` of them, and one too many from there on.
pub list_results_shown :
    (print_hex : ℕ → Bytes) (limit : ℕ) (cs : List Candidate)
    → ((list_results print_hex limit cs 0 empty_array).0
        ≡ listed print_hex (take limit cs) empty_array)
      × ((list_results print_hex limit cs 0 empty_array).1
          ≡ (if ltb limit (length cs) then limit + 1 else length cs))
list_results_shown print_hex limit cs = (
  list_results_array print_hex limit limit 0 cs empty_array (omega arith),
  list_results_count print_hex limit 0 cs empty_array (omega arith) ∙ ground arith,
)
