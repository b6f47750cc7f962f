-- ===== src/Titles/Paging.antt =====
-- The titles are listed page by page.
use switch_mcp.Base.{
  ℕ, zero, suc, ◌+◌, ◌≤◌, ◌<◌, true, List, [], ◌∷◌, ◌++◌, Option, some, ◌≡◌, sym, ◌∙◌, ap, arith,
  ltb, ◌==◌, length, take, drop, drop-drop, take_short, take-append-drop, length-take, length-drop,
  Bool-cases, inl, inr,
}
use switch_mcp.Titles.{page_size, listed_records}

-- A service that gives the next 32 of its records at each offset.
abbrev pub Pages : (ℕ → Option (List ℕ)) → List ℕ → Type 0
Pages records all = (offset : ℕ) → records offset ≡ some (take page_size (drop offset all))

nothing_left : (xs ys : List ℕ) → (length xs == 0) ≡ true → xs ≡ ys → [] ≡ ys
nothing_left [] ys e same = same
nothing_left (x ∷ xs) ys e same = ground (arith, e)

listed_from :
    (rounds offset : ℕ) (records : ℕ → Option (List ℕ)) (all : List ℕ)
    → Pages records all
    → length all < offset + rounds
    → offset ≤ length all
    → listed_records rounds records offset ≡ drop offset all
unfolding listed_records
listed_from zero offset records all pages enough inside = ground (arith, enough, inside)
listed_from (suc rounds) offset records all pages enough inside =
    let left = drop offset all in
    let got = take page_size left in
    rw (pages offset) (elim (Bool-cases (length got == 0)) [
      | inl e ↦ rw e (nothing_left got left e (take_short page_size left (ground (arith, e))))
      | inr e ↦ rw e (elim (Bool-cases (ltb (length got) page_size)) [
        | inl short ↦ rw short (take_short page_size left short)
        | inr whole ↦
            let whole_page : length got ≡ page_size =
              ground (arith, whole, length-take page_size left) in
            rw whole (
              ap (λ x. got ++ x)
                (listed_from rounds (offset + length got) records all pages
                    (ground (arith, enough, e))
                    (omega (
                      arith,
                      inside,
                      whole_page,
                      length-take page_size left,
                      length-drop offset all,
                    ))
                  ∙ sym (
                      drop-drop offset page_size (offset + length got) all
                        (omega (arith, whole_page))))
              ∙ take-append-drop page_size left)
      ])
    ])

-- Where the service gives the next 32 of its records at each offset, the list of the titles has all the
-- records, each once and in their order, and takes no more calls than there are records and one.
pub listed_records-Pages :
    (records : ℕ → Option (List ℕ)) (all : List ℕ) (rounds : ℕ)
    → Pages records all
    → length all < rounds
    → listed_records rounds records 0 ≡ all
listed_records-Pages records all rounds pages enough =
    listed_from rounds 0 records all pages (omega (arith, enough)) (omega arith)
