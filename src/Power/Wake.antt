-- ===== src/Power/Wake.antt =====
-- Every power request is answered, no wake is lost, and a dead listener is rebuilt.
use switch_mcp.Base.{
  ℕ, zero, suc, ◌+◌, ◌<◌, true, false, List, [], ◌∷◌, ◌++◌, append-nil, append_assoc, ◌≡◌, refl,
  sym, ◌∙◌, arith, leb,
}
use switch_mcp.Power.{
  PowerRequest, ready_sleep, ready_sleep_critical, awake, ready_awaken, ready_awaken_critical,
  ready_shutdown, PowerState, noted, acknowledge, answer_requests, Accepted, refused,
  take_woke_flag, keep, rebuild, accept_turn, accept_loop, max_accept_errors,
}

noted_acknowledged : (r : PowerRequest) (p : PowerState) → (noted r p).acknowledged ≡ p.acknowledged
noted_acknowledged ready_sleep p = refl
noted_acknowledged ready_sleep_critical p = refl
noted_acknowledged awake p = refl
noted_acknowledged ready_awaken p = refl
noted_acknowledged ready_awaken_critical p = refl
noted_acknowledged ready_shutdown p = refl

-- The acknowledgement thread acknowledges every pending request, in the order of their arrival,
-- whatever they ask and whatever state they find.
pub answer_requests_acknowledged :
    (rs : List PowerRequest) (p : PowerState)
    → (answer_requests rs p).acknowledged ≡ p.acknowledged ++ rs
unfolding answer_requests
answer_requests_acknowledged [] p = sym (append-nil p.acknowledged)
answer_requests_acknowledged (r ∷ rs) p =
    answer_requests_acknowledged rs (acknowledge r (noted r p))
    ∙ rw (noted_acknowledged r p) (append_assoc p.acknowledged (r ∷ []) rs)

noted_woke : (r : PowerRequest) (p : PowerState) → p.woke ≡ true → (noted r p).woke ≡ true
noted_woke ready_sleep p e = e
noted_woke ready_sleep_critical p e = e
noted_woke awake p e = refl
noted_woke ready_awaken p e = refl
noted_woke ready_awaken_critical p e = refl
noted_woke ready_shutdown p e = e

answer_requests_woke :
    (rs : List PowerRequest) (p : PowerState) → p.woke ≡ true → (answer_requests rs p).woke ≡ true
unfolding answer_requests
answer_requests_woke [] p e = e
answer_requests_woke (r ∷ rs) p e =
    answer_requests_woke rs (acknowledge r (noted r p)) (noted_woke r p e)

-- The requests that tell of a wake.
pub data IsWake : PowerRequest → Type 0 where
  by_awake : IsWake awake
  by_ready : IsWake ready_awaken
  by_critical : IsWake ready_awaken_critical

pub data HasWake : List PowerRequest → Type 0 where
  here : (r : PowerRequest) (rs : List PowerRequest) → IsWake r → HasWake (r ∷ rs)
  later : (r : PowerRequest) (rs : List PowerRequest) → HasWake rs → HasWake (r ∷ rs)

IsWake-noted : (r : PowerRequest) (p : PowerState) → IsWake r → (noted r p).woke ≡ true
IsWake-noted ready_sleep p w = elim w [ ]
IsWake-noted ready_sleep_critical p w = elim w [ ]
IsWake-noted ready_shutdown p w = elim w [ ]
IsWake-noted awake p by_awake = refl
IsWake-noted ready_awaken p by_ready = refl
IsWake-noted ready_awaken_critical p by_critical = refl

HasWake-woke :
    (rs : List PowerRequest) (p : PowerState) → HasWake rs → (answer_requests rs p).woke ≡ true
unfolding answer_requests
HasWake-woke [] p w = elim w [ ]
HasWake-woke (r ∷ rs) p (here _ _ w) =
    answer_requests_woke rs (acknowledge r (noted r p)) (IsWake-noted r p w)
HasWake-woke (r ∷ rs) p (later _ _ w) = HasWake-woke rs (acknowledge r (noted r p)) w

woken :
    (errors : ℕ) (p : PowerState)
    → p.woke ≡ true
    → accept_turn refused errors p ≡ rebuild (record p { woke = false })
unfolding accept_turn take_woke_flag
woken errors p e = rw e refl

-- A wake is not lost: once the requests that were answered told of one, wherever among them it stood,
-- the next `accept` that fails rebuilds the listener at once and takes the flag back.
pub accept_turn-HasWake :
    (rs : List PowerRequest) (errors : ℕ) (p : PowerState)
    → HasWake rs
    → accept_turn refused errors (answer_requests rs p)
      ≡ rebuild (record (answer_requests rs p) { woke = false })
accept_turn-HasWake rs errors p w = woken errors (answer_requests rs p) (HasWake-woke rs p w)

abbrev pub failures : ℕ → List Accepted
failures zero = []
failures (suc k) = refused ∷ failures k

counted :
    (errors : ℕ) (p : PowerState)
    → p.woke ≡ false
    → p.is_asleep ≡ false
    → errors + 1 < max_accept_errors
    → accept_turn refused errors p ≡ keep (errors + 1) p
unfolding accept_turn take_woke_flag
counted errors p w a lt =
    let more : leb max_accept_errors (errors + 1) ≡ false = ground (arith, lt) in
    rw w (rw a (rw more refl))

given_up :
    (errors : ℕ) (p : PowerState)
    → p.woke ≡ false
    → p.is_asleep ≡ false
    → errors + 1 ≡ max_accept_errors
    → accept_turn refused errors p ≡ rebuild p
unfolding accept_turn take_woke_flag
given_up errors p w a e =
    let full : leb max_accept_errors (errors + 1) ≡ true = ground (arith, e) in
    rw w (rw a (rw full refl))

-- Without a power event, a listener whose `accept` keeps failing is rebuilt at the failure that brings
-- the count to 20.
pub accept_loop-failures :
    (k errors : ℕ) (p : PowerState)
    → p.woke ≡ false
    → p.is_asleep ≡ false
    → errors + suc k ≡ max_accept_errors
    → accept_loop (failures (suc k)) errors p ≡ rebuild p
unfolding accept_loop
accept_loop-failures zero errors p w a e = rw (given_up errors p w a (omega (arith, e))) refl
accept_loop-failures (suc k) errors p w a e =
    rw (counted errors p w a (omega (arith, e)))
      (accept_loop-failures k (errors + 1) p w a (omega (arith, e)))
