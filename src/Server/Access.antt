-- ===== src/Server/Access.antt =====
-- Which commands the gate lets through, and what the command table says of them.
use switch_mcp.Base.{
  ℕ, ◌≤◌, Bool, true, false, not, ◌&&◌, List, [], ◌∷◌, some, ◌≡◌, ◌⊎◌, ◌↔◌, refl, arith, ltb,
  if◌then◌else◌, Bytes, eq, ap, Bool-cases, inl, inr, &&-eq-true, eq_of_some,
}
use switch_mcp.Agent.{Tier, observe, control, invasive, tier_value, AgentConfig, Reply}
use switch_mcp.Server.Table.{Command, Row, dispatch, find_command}
use switch_mcp.Server.Gate.{check_tier, Permits, needs_hardware, needs_overclock, needs_nand_write}

not_below : (a b : ℕ) → ltb a b ≡ false → b ≤ a
not_below a b h = ground arith

above : (a b : ℕ) → b ≤ a → ltb a b ≡ false
above a b h = ground arith

switch_allows : (need allow : Bool) → (need && not allow) ≡ false → (need ≡ false) ⊎ (allow ≡ true)
switch_allows need allow h = ground arith

-- A ladder of refusals gives the last result exactly when each test fails.
ladder :
    (a b c d : Bool) (p q r s t : Reply)
    → ◌≡◌ {A = Bool × Reply}
        (if a
          then (false, p)
          else if b
          then (false, q)
          else if c
          then (false, r)
          else if d
          then (false, s)
          else (true, t))
        (true, t)
      ↔ (a ≡ false) × (b ≡ false) × (c ≡ false) × (d ≡ false)
ladder true b c d p q r s t = (λ e. cc (ap (λ x. x.0) e), λ e. cc (e.0))
ladder false true c d p q r s t = (λ e. cc (ap (λ x. x.0) e), λ e. cc (e.1))
ladder false false true d p q r s t = (λ e. cc (ap (λ x. x.0) e), λ e. cc (e.2))
ladder false false false true p q r s t = (λ e. cc (ap (λ x. x.0) e), λ e. cc (e.3))
ladder false false false false p q r s t = (λ e. (refl, refl, refl, refl), λ e. refl)

allows_switch : (need allow : Bool) → (need ≡ false) ⊎ (allow ≡ true) → (need && not allow) ≡ false
allows_switch need allow h = ground arith

-- `CheckTier` returns true exactly when the command's tier is at most the configured one and every
-- switch that the command's name calls for is on; the reply is then left as it was.
pub check_tier_iff :
    (cmd : Bytes) (c : Command) (cfg : AgentConfig) (reply : Reply)
    → (check_tier cmd c cfg reply ≡ (true, reply)) ↔ Permits cmd c cfg
unfolding check_tier
check_tier_iff cmd c cfg reply =
    let below = ltb (tier_value cfg.tier) (tier_value c.tier) in
    let tests =
      ladder below (needs_hardware cmd && not cfg.allow_hardware)
        (needs_overclock cmd && not cfg.allow_overclock)
        (needs_nand_write cmd && not cfg.allow_nand_write) _ _ _ _ reply in
    (
      λ e.
          let t = tests.0 e in
          record {
            tier_reached = not_below _ _ t.0;
            hardware = switch_allows _ _ t.1;
            overclock = switch_allows _ _ t.2;
            nand_write = switch_allows _ _ t.3;
          },
      λ p. tests.1 (
        above _ _ p.tier_reached,
        allows_switch _ _ p.hardware,
        allows_switch _ _ p.overclock,
        allows_switch _ _ p.nand_write,
      ),
    )

passes :
    (cmd : Bytes) (c : Command) (cfg : AgentConfig) (reply : Reply)
    → (check_tier cmd c cfg reply).0 ≡ true
    → check_tier cmd c cfg reply ≡ (true, reply)
unfolding check_tier
passes cmd c cfg reply = elim (Bool-cases (ltb (tier_value cfg.tier) (tier_value c.tier))) [
  | inl a ↦ rw a (λ e. cc e)
  | inr a ↦ rw a (elim (Bool-cases (needs_hardware cmd && not cfg.allow_hardware)) [
    | inl b ↦ rw b (λ e. cc e)
    | inr b ↦ rw b (elim (Bool-cases (needs_overclock cmd && not cfg.allow_overclock)) [
      | inl d ↦ rw d (λ e. cc e)
      | inr d ↦ rw d (elim (Bool-cases (needs_nand_write cmd && not cfg.allow_nand_write)) [
        | inl f ↦ rw f (λ e. cc e)
        | inr f ↦ rw f (λ e. refl)
      ])
    ])
  ])
]

-- The first part of the result alone decides.
pub check_tier-true :
    (cmd : Bytes) (c : Command) (cfg : AgentConfig) (reply : Reply)
    → (check_tier cmd c cfg reply).0 ≡ true
    → Permits cmd c cfg
check_tier-true cmd c cfg reply e = (check_tier_iff cmd c cfg reply).0 (passes cmd c cfg reply e)

pub check_tier-false :
    (cmd : Bytes) (c : Command) (cfg : AgentConfig) (reply : Reply)
    → (check_tier cmd c cfg reply).0 ≡ false
    → ¬ Permits cmd c cfg
check_tier-false cmd c cfg reply e p = cc (e, ap (λ x. x.0) ((check_tier_iff cmd c cfg reply).1 p))

-- A check of every row.
every : (Command → Bool) → List Row → Bool
every p [] = true
every p ((name, c) ∷ rows) = p c && every p rows

every_sound :
    (p : Command → Bool) (rows : List Row) (cmd : Bytes) {c : Command}
    → every p rows ≡ true
    → find_command cmd rows ≡ some c
    → p c ≡ true
unfolding every find_command
every_sound p [] cmd h e = cc
every_sound p ((name, d) ∷ rows) cmd {c} h e = elim (Bool-cases (eq name cmd)) [
  | inl m ↦ rw (← eq_of_some (rw m at e)) ((&&-eq-true (p d) (every p rows) h).0)
  | inr m ↦ every_sound p rows cmd ((&&-eq-true (p d) (every p rows) h).1) (rw m at e)
]

abbrev tier_matches : Command → Bool
tier_matches c = elim c.tier [ observe ↦ not c.mutating | control ↦ true | invasive ↦ c.mutating ]

table_matches : every tier_matches dispatch ≡ true
unfolding every dispatch
table_matches = refl

-- What a tier says of the flag.
abbrev pub Flagged : Tier → Bool → Type 0
Flagged observe mutating = mutating ≡ false
Flagged control mutating = Unit
Flagged invasive mutating = mutating ≡ true

matches_of :
    (tier : Tier) (mutating : Bool)
    → (elim tier [ observe ↦ not mutating | control ↦ true | invasive ↦ mutating ]) ≡ true
    → Flagged tier mutating
matches_of observe mutating h = ground (arith, h)
matches_of control mutating h = tt
matches_of invasive mutating h = h

-- In the command table no command of the observe tier is marked as mutating, and every command of
-- the invasive tier is.
pub find_command-tiers :
    (cmd : Bytes) {c : Command} → find_command cmd dispatch ≡ some c → Flagged c.tier c.mutating
find_command-tiers cmd {c} e =
    matches_of c.tier c.mutating (every_sound tier_matches dispatch cmd table_matches e)
