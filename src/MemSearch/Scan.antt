-- ===== src/MemSearch/Scan.antt =====
-- What a scan of one chunk finds, against the table of its words.
use switch_mcp.Base.{
  ℕ, zero, suc, ◌+◌, ◌%◌, ◌^◌, false, List, [], ◌∷◌, ◌++◌, append-nil, append_assoc, ◌≡◌, sym, ◌∙◌,
  arith, leb, ◌==◌, if◌then◌else◌, length, drop, Bytes, Bool-cases, inl, inr,
}
use switch_mcp.MemSearch.{max_candidates, Candidate, load_value, scan_words}

-- The first `k` words behind an address, each with the value that it holds.
abbrev pub words : ℕ → ℕ → ℕ → Bytes → List Candidate
words zero width addr bs = []
words (suc k) width addr bs =
    record { addr = addr; value = load_value width bs }
    ∷ words k width ((addr + width) % 2 ^ 64) (drop width bs)

-- Those that hold a value.
abbrev pub holding : ℕ → List Candidate → List Candidate
holding want [] = []
holding want (c ∷ cs) =
    if c.value == want
    then record { addr = c.addr; value = want } ∷ holding want cs
    else holding want cs

-- Unless the scan of a chunk hits the cap of the table, it adds exactly the words that hold the
-- value, in the order of their addresses.
pub scan_words-holding :
    (k width want addr : ℕ) (bs : Bytes) (found : List Candidate)
    → (scan_words k width want addr bs found).0 ≡ false
    → (scan_words k width want addr bs found).1 ≡ found ++ holding want (words k width addr bs)
unfolding scan_words
scan_words-holding zero width want addr bs found = λ whole. sym (append-nil found)
scan_words-holding (suc k) width want addr bs found =
    let later = (addr + width) % 2 ^ 64 in
    let c : Candidate = record { addr = addr; value = want } in
    elim (Bool-cases (load_value width bs == want)) [
      | inr e ↦ rw e (scan_words-holding k width want later (drop width bs) found)
      | inl e ↦ rw e (elim (Bool-cases (leb max_candidates (length found))) [
        | inl full ↦ rw full (λ wrong. ground arith)
        | inr room ↦ rw room (λ whole.
            scan_words-holding k width want later (drop width bs) (found ++ (c ∷ [])) whole
            ∙ append_assoc found (c ∷ []) _)
      ])
    ]
