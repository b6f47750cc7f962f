-- ===== src/MemSearch/Filter.antt =====
-- What `search.next` keeps of the candidates.
use switch_mcp.Base.{
  ℕ, ◌<◌, Bool, true, false, not, ◌&&◌, List, [], ◌∷◌, Option, none, some, ◌≡◌, ◌≢◌, refl, arith,
  ltb, ◌==◌, length, Bytes, codes, Bool-cases, inl, inr,
}
use switch_mcp.Json.Value.{has, as_int, as_string}
use switch_mcp.Agent.{Request, field_of}
use switch_mcp.MemSearch.{
  Candidate, Search, CheatService, Handled, on_attached, load_value, ensure_cheat_process,
  open_service, process_known, force_opened,
}
use switch_mcp.MemSearch.Requests.{
  keeps, needs_value, judged, with_value, filter, next_filtered, next_attached, search_next,
}

-- The operators.
pub data Op : Type 0 where
  equal different above below changed unchanged increased decreased : Op

abbrev pub spelling : Op → Bytes
spelling equal = codes "eq"
spelling different = codes "ne"
spelling above = codes "gt"
spelling below = codes "lt"
spelling changed = codes "changed"
spelling unchanged = codes "unchanged"
spelling increased = codes "increased"
spelling decreased = codes "decreased"

-- What an operator asks of the value now.
abbrev pub Meets : Op → ℕ → ℕ → ℕ → Type 0
Meets equal want was now = now ≡ want
Meets different want was now = now ≢ want
Meets above want was now = want < now
Meets below want was now = now < want
Meets changed want was now = now ≢ was
Meets unchanged want was now = now ≡ was
Meets increased want was now = was < now
Meets decreased want was now = now < was

-- The verdict is the meaning of the operator.
pub data Decides (P : Type 0) : Option Bool → Type 0 where
  holds : P → Decides P (some true)
  fails : ¬ P → Decides P (some false)

Decides-test : {P : Type 0} (b : Bool) → (b ≡ true → P) → (b ≡ false → ¬ P) → Decides P (some b)
Decides-test true p n = holds (p refl)
Decides-test false p n = fails (n refl)

pub keeps-Decides :
    (op : Op) (want was now : ℕ)
    → Decides (Meets op want was now) (keeps (spelling op) want was now)
unfolding keeps
keeps-Decides equal want was now =
    Decides-test (now == want) (λ e. ground arith) (λ e. ground arith)
keeps-Decides different want was now =
    Decides-test (not (now == want)) (λ e. ground arith) (λ e. ground arith)
keeps-Decides above want was now =
    Decides-test (ltb want now) (λ e. ground arith) (λ e. ground arith)
keeps-Decides below want was now =
    Decides-test (ltb now want) (λ e. ground arith) (λ e. ground arith)
keeps-Decides changed want was now =
    Decides-test (not (now == was)) (λ e. ground arith) (λ e. ground arith)
keeps-Decides unchanged want was now =
    Decides-test (now == was) (λ e. ground arith) (λ e. ground arith)
keeps-Decides increased want was now =
    Decides-test (ltb was now) (λ e. ground arith) (λ e. ground arith)
keeps-Decides decreased want was now =
    Decides-test (ltb now was) (λ e. ground arith) (λ e. ground arith)

module _ (svc : CheatService) (op : Op) (want width : ℕ) where
  open svc use {read_mem}

  -- The candidates that survive, in their order and with the value that was read: those that are
  -- still mapped and meet the operator.
  pub data Survivors : List Candidate → List Candidate → Type 0 where
    no_more : Survivors [] []
    vanished :
        (c : Candidate) (cs kept : List Candidate)
        → read_mem c.addr width ≡ none
        → Survivors cs kept
        → Survivors (c ∷ cs) kept
    dropped :
        (c : Candidate) (cs kept : List Candidate) (raw : Bytes)
        → read_mem c.addr width ≡ some raw
        → ¬ Meets op want c.value (load_value width raw)
        → Survivors cs kept
        → Survivors (c ∷ cs) kept
    survived :
        (c : Candidate) (cs kept : List Candidate) (raw : Bytes)
        → read_mem c.addr width ≡ some raw
        → Meets op want c.value (load_value width raw)
        → Survivors cs kept
        → Survivors (c ∷ cs) (record { addr = c.addr; value = load_value width raw } ∷ kept)

  -- A result of the loop.
  abbrev Filtered : List Candidate → Option (List Candidate) → Type 0
  Filtered cs none = ⊥
  Filtered cs (some kept) = Survivors cs kept

  judged-Filtered :
      (c : Candidate) (cs : List Candidate) (raw : Bytes) (v : Option Bool)
      (rest : Option (List Candidate))
      → read_mem c.addr width ≡ some raw
      → Decides (Meets op want c.value (load_value width raw)) v
      → Filtered cs rest
      → Filtered (c ∷ cs) (judged v c.addr (load_value width raw) rest)
  judged-Filtered c cs raw v none e d never = elim never [ ]
  judged-Filtered c cs raw none (some kept) e d f = elim d [ ]
  judged-Filtered c cs raw (some true) (some kept) e (holds p) f = survived c cs kept raw e p f
  judged-Filtered c cs raw (some false) (some kept) e (fails n) f = dropped c cs kept raw e n f

  with_value-Filtered :
      (c : Candidate) (cs : List Candidate) (o : Option Bytes) (rest : Option (List Candidate))
      → read_mem c.addr width ≡ o
      → Filtered cs rest
      → Filtered (c ∷ cs) (with_value (spelling op) want width c o rest)
  with_value-Filtered c cs none none e never = elim never [ ]
  with_value-Filtered c cs none (some kept) e f = vanished c cs kept e f
  with_value-Filtered c cs (some raw) rest e f =
      judged-Filtered c cs raw _ rest e (keeps-Decides op want c.value (load_value width raw)) f

  filter-Filtered : (cs : List Candidate) → Filtered cs (filter svc (spelling op) want width cs)
  unfolding filter
  filter-Filtered [] = no_more
  filter-Filtered (c ∷ cs) =
      with_value-Filtered c cs (read_mem c.addr width) _ refl (filter-Filtered cs)

  value_of :
      (cs : List Candidate) (o : Option (List Candidate))
      → Filtered cs o
      → (kept : List Candidate) × (o ≡ some kept) × Survivors cs kept
  value_of cs none never = elim never [ ]
  value_of cs (some kept) f = (kept, refl, f)

  -- Where the operator is spelled as one of the eight, the loop ends with the survivors.
  pub filter-Survivors :
      (cs : List Candidate)
      → (kept : List Candidate) × (filter svc (spelling op) want width cs ≡ some kept)
        × Survivors cs kept
  filter-Survivors cs = value_of cs _ (filter-Filtered cs)

module _ (svc : CheatService) (op : Op) (req : Request) where
  abbrev Kept : Search → Search → Type 0
  Kept s t = Survivors svc op (as_int (field_of req "value") 0) s.width s.candidates t.candidates

  abbrev Succeeds : Search → Handled → Type 0
  Succeeds s (ok, reply, t) = ok ≡ true → Kept s t

  next_filtered-Succeeds :
      (s : Search) (text : Bytes) (o : Option (List Candidate))
      → Filtered svc op (as_int (field_of req "value") 0) s.width s.candidates o
      → Succeeds s (next_filtered svc text o s)
  next_filtered-Succeeds s text none never e = elim never [ ]
  next_filtered-Succeeds s text (some kept) f e = f

  next_attached-Succeeds :
      (s : Search)
      → as_string (field_of req "op") (codes "eq") ≡ spelling op
      → Succeeds s (next_attached svc req s)
  unfolding next_attached
  next_attached-Succeeds s spelled = elim (Bool-cases (length s.candidates == 0)) [
    | inl e ↦ rw e (λ wrong. ground arith)
    | inr e ↦
        rw e
          (elim (Bool-cases (
            needs_value (as_string (field_of req "op") (codes "eq"))
            && not (has req.msg (codes "value")))) [
              | inl n ↦ rw n (λ wrong. ground arith)
              | inr n ↦ rw n (
                  next_filtered-Succeeds s _ _ (
                    rw spelled (
                      filter-Filtered svc op (as_int (field_of req "value") 0) s.width
                        s.candidates)))
            ])
  ]

  -- The table, which the opening of the service leaves as it is.
  abbrev Same : Search → Handled → Type 0
  Same s (ok, reply, t) = (t.candidates ≡ s.candidates) × (t.width ≡ s.width)

  force_opened-Same : (o : Option ℕ) (s : Search) → Same s (force_opened svc o s)
  force_opened-Same none s = (refl, refl)
  force_opened-Same (some pid) s = elim (Bool-cases (pid == 0)) [
    | inl e ↦ rw e (refl, refl)
    | inr e ↦ rw e (elim (Bool-cases (not (svc.force_open pid))) [
      | inl n ↦ rw n (refl, refl)
      | inr n ↦ rw n (refl, refl)
    ])
  ]

  process_known-Same : (o : Option Bool) (s : Search) → Same s (process_known svc o s)
  process_known-Same none s = (refl, refl)
  process_known-Same (some true) s = (refl, refl)
  process_known-Same (some false) s = force_opened-Same svc.application_process s

  ensure-Same : (s : Search) → Same s (ensure_cheat_process svc s)
  unfolding ensure_cheat_process open_service
  ensure-Same s = elim (Bool-cases s.is_open) [
    | inl e ↦ rw e (process_known-Same svc.has_cheat_process (record s { is_open = true }))
    | inr e ↦ rw e (elim (Bool-cases (not svc.get_service)) [
      | inl n ↦ rw n (refl, refl)
      | inr n ↦ rw n (process_known-Same svc.has_cheat_process (record s { is_open = true }))
    ])
  ]

  on_attached-Succeeds :
      (s : Search) (x : Handled)
      → as_string (field_of req "op") (codes "eq") ≡ spelling op
      → Same s x
      → Succeeds s (on_attached (next_attached svc req) x)
  on_attached-Succeeds s (false, reply, t) spelled same = λ wrong. ground arith
  on_attached-Succeeds s (true, reply, t) spelled same =
      rw (← same.0) (rw (← same.1) (next_attached-Succeeds t spelled))

  -- A `search.next` that succeeds, with the operator spelled as one of the eight, leaves exactly the
  -- candidates that are still mapped and whose value now meets the operator, in their order and
  -- with that value.
  pub search_next-Survivors :
      (s : Search)
      → as_string (field_of req "op") (codes "eq") ≡ spelling op
      → (search_next svc req s).0 ≡ true
      → Survivors svc op
          (as_int (field_of req "value") 0)
          s.width
          s.candidates
          ((search_next svc req s).2.candidates)
  unfolding search_next
  search_next-Survivors s spelled = on_attached-Succeeds s _ spelled (ensure-Same s)
