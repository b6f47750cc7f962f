-- ===== src/Lockscreen/Presses.antt =====
-- How often the unlock thread presses a button.
use switch_mcp.Base.{
  ℕ, suc, ◌+◌, Bool, true, false, not, ◌&&◌, ◌||◌, List, [], ◌∷◌, Option, ◌≡◌, refl, arith, leb,
  ◌==◌, if◌then◌else◌, Bool-cases, inl, inr,
}
use switch_mcp.Agent.{AgentConfig, tier_value}
use switch_mcp.Lockscreen.{
  PadCall, hold_b, let_go, release, application_running, boot_presses, nudges, worker,
  keep_awake_ns_of, schedule_unlock,
}

abbrev pub holds : List PadCall → ℕ
holds [] = 0
holds (hold_b ∷ calls) = suc (holds calls)
holds (let_go ∷ calls) = holds calls
holds (release ∷ calls) = holds calls

-- The looks that find no application running.
abbrev pub idle_looks : List (Option ℕ) → ℕ
idle_looks [] = 0
idle_looks (application ∷ rest) =
    if application_running application then idle_looks rest else suc (idle_looks rest)

-- The agent may inject input, and one of the two settings asks for it.
abbrev pub is_asked : AgentConfig → Bool
is_asked cfg =
    leb 1 (tier_value cfg.tier)
    && (cfg.clear_lockscreen_on_boot || not (cfg.keep_awake_minutes == 0))

holds-nudges : (looks : List (Option ℕ)) → holds (nudges true looks) ≡ idle_looks looks
unfolding nudges
holds-nudges [] = refl
holds-nudges (application ∷ rest) = elim (Bool-cases (application_running application)) [
  | inl e ↦ rw e (holds-nudges rest)
  | inr e ↦ rw e (omega (arith, holds-nudges rest))
]

holds-worker :
    (ns : ℕ) (looks : List (Option ℕ))
    → holds (worker true ns looks) ≡ 3 + (if ns == 0 then 0 else idle_looks looks)
unfolding worker boot_presses
holds-worker ns looks = elim (Bool-cases (ns == 0)) [
  | inl e ↦ rw e refl
  | inr e ↦ rw e (omega (arith, holds-nudges looks))
]

-- On the first call, where the thread and the virtual pad come up, `ScheduleUnlock` presses the
-- button three times and then once for each nudge that finds no application running, if the
-- agent may inject input and one of its two settings is on; the three presses do not depend on which
-- of the two it is. Otherwise it presses nothing.
pub schedule_unlock-holds :
    (cfg : AgentConfig) (looks : List (Option ℕ))
    → holds (schedule_unlock false true cfg true looks) ≡ (
        if is_asked cfg then 3 + (if keep_awake_ns_of cfg == 0 then 0 else idle_looks looks) else 0)
unfolding schedule_unlock
schedule_unlock-holds cfg looks = ground (arith, holds-worker (keep_awake_ns_of cfg) looks)
