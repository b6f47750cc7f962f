-- ===== src/Guards/Trail.antt =====
-- What the journal keeps, what the preflight check says, and what the watchdog counts.
use switch_mcp.Base.{
  ℕ, ◌≤◌, ◌<◌, Bool, true, false, not, ◌&&◌, ◌++◌, Option, none, some, ◌≡◌, ◌⊎◌, ◌↔◌, refl, arith,
  ltb, ◌==◌, ◌^◌, length, Bytes, Bool-cases, inl, inr,
}
use switch_mcp.Json.Number.{strtoll, read_digits}
use switch_mcp.Agent.{AgentConfig, c_str, empty_reply}
use switch_mcp.Json.Value.{empty_array}
use switch_mcp.Wire.Words.{lt64}
use switch_mcp.Guards.{
  journal_max_bytes, Guards, Card, journal_line, contents, journal_append, Gauges, Checked,
  check_battery, check_charger, known_charge, check_space, check_system, preflight_checks,
  watchdog_on_boot, watchdog_on_connect, min_battery_percent,
}

-- After an entry: the journal has it at its end and is within its bound or could not be renamed, or
-- the journal, with the entry at its end, was put aside whole.
pub data Recorded (card : Card) (line : Bytes) (g : Guards) : Guards → Type 0 where
  appended :
      (length (contents g.journal ++ line) ≤ journal_max_bytes) ⊎ (card.renames g.rotated ≡ false)
      → Recorded card line g (record g { journal = some (contents g.journal ++ line) })
  put_aside :
      journal_max_bytes < length (contents g.journal ++ line)
      → Recorded card line g
          (record g { journal = none; rotated = some (contents g.journal ++ line) })

within :
    (n : ℕ) (renamed : Bool)
    → (ltb journal_max_bytes n && renamed) ≡ false
    → (n ≤ journal_max_bytes) ⊎ (renamed ≡ false)
within n renamed h = ground arith

beyond :
    (n : ℕ) (renamed : Bool) → (ltb journal_max_bytes n && renamed) ≡ true → journal_max_bytes < n
beyond n renamed h = ground arith

-- On a card whose files open, `JournalAppend` puts the entry behind the journal; one that then
-- exceeds 512 KiB is renamed with the entry in it, in place of the one that was renamed before.
pub journal_append-Recorded :
    (card : Card) (secs : ℕ) (op detail : Bytes) (g : Guards)
    → card.opens ≡ true
    → Recorded card (journal_line secs op detail) g (journal_append card secs op detail g)
unfolding journal_append
journal_append-Recorded card secs op detail g e =
    let n = length (contents g.journal ++ journal_line secs op detail) in
    rw e (elim (Bool-cases (ltb journal_max_bytes n && card.renames g.rotated)) [
      | inl full ↦ rw full (put_aside (beyond n _ full))
      | inr room ↦ rw room (appended (within n _ room))
    ])

-- The verdict after each of the later checks is the verdict before it.
check_charger_verdict :
    (o : Option Bool) (charge : Option ℕ) (c : Checked) → (check_charger o charge c).0 ≡ c.0
check_charger_verdict none charge c = refl
check_charger_verdict (some plugged) charge (safe, problems, reply) =
    elim (Bool-cases (not plugged && ltb (known_charge charge) 50)) [
      | inl e ↦ rw e refl
      | inr e ↦ rw e refl
    ]

check_space_verdict : (o : Option ℕ) (c : Checked) → (check_space o c).0 ≡ c.0
check_space_verdict none c = refl
check_space_verdict (some bytes) (safe, problems, reply) = elim (Bool-cases (lt64 bytes (2 ^ 30))) [
  | inl e ↦ rw e refl
  | inr e ↦ rw e refl
]

check_system_verdict : (cfg : AgentConfig) (c : Checked) → (check_system cfg c).0 ≡ c.0
check_system_verdict cfg (safe, problems, reply) = elim (Bool-cases cfg.is_emummc) [
  | inl e ↦ rw e refl
  | inr e ↦ rw e refl
]

-- The charge was read and is below 30%.
abbrev pub IsLow : Option ℕ → Type 0
IsLow none = ⊥
IsLow (some charge) = charge < min_battery_percent

check_battery_verdict :
    (o : Option ℕ) → ((check_battery o (true, empty_array, empty_reply)).0 ≡ false) ↔ IsLow o
check_battery_verdict none = (λ e. cc e, λ never. elim never [ ])
check_battery_verdict (some charge) = elim (Bool-cases (ltb charge min_battery_percent)) [
  | inl e ↦ rw e (λ _. ground (arith, e), λ _. refl)
  | inr e ↦ rw e (λ wrong. cc wrong, λ low. ground (arith, e, low))
]

-- `PreflightCheck` calls irreversible operations unsafe exactly when the battery's charge was read and
-- is below 30%; no other check takes part in the verdict.
pub preflight_checks_iff :
    (cfg : AgentConfig) (gauges : Gauges)
    → ((preflight_checks cfg gauges).0 ≡ false) ↔ IsLow gauges.charge
unfolding preflight_checks
preflight_checks_iff cfg gauges = rw (check_system_verdict cfg _) (
    rw (check_space_verdict gauges.free_bytes _) (
      rw (check_charger_verdict gauges.on_charger gauges.charge _)
        (check_battery_verdict gauges.charge)))

-- A connection ends the streak: on a card whose files open, the boot that follows a connection made
-- in a streak counts as the first of the next one.
pub watchdog_on_boot-connect :
    (card : Card) (secs : ℕ) (g : Guards)
    → card.opens ≡ true
    → (g.boot_count == 0) ≡ false
    → (watchdog_on_boot card secs (watchdog_on_connect card g)).boot_count ≡ 1
unfolding watchdog_on_boot watchdog_on_connect strtoll read_digits c_str
watchdog_on_boot-connect card secs g e streak = rw e (rw streak refl)
