-- ===== src/PowerControl/Transitions.antt =====
-- Which transition the console makes after any sequence of the power commands.
use switch_mcp.Base.{Bool, true, false, List, [], ◌∷◌, Option, none, some, ◌≡◌, refl}
use switch_mcp.PowerControl.{
  PowerAction, reboot, Pending, nothing_pending, PowerCommand, action_of, power_command,
  power_thread, schedule,
}

-- The commands one after another, each with whether a thread can be started for it.
unfoldable pub power_commands : List (PowerCommand × Bool) → Pending → Pending
power_commands [] p = p
power_commands ((command, threads) ∷ rest) p =
    power_commands rest (power_command command threads p).1

-- The action of the first command that a thread could be started for.
unfoldable pub first_started : List (PowerCommand × Bool) → Option PowerAction
first_started [] = none
first_started ((command, true) ∷ rest) = some (action_of command)
first_started ((command, false) ∷ rest) = first_started rest

stays_started :
    (commands : List (PowerCommand × Bool)) (action : PowerAction)
    → power_commands commands (record { pending_action = action; started = true })
      ≡ record { pending_action = action; started = true }
unfolding power_commands power_command schedule
stays_started [] action = refl
stays_started ((command, threads) ∷ rest) action = stays_started rest action

first_action :
    (commands : List (PowerCommand × Bool)) (action : PowerAction)
    → power_thread (power_commands commands (record { pending_action = action; started = false }))
      ≡ first_started commands
unfolding power_commands power_command schedule first_started
first_action [] action = refl
first_action ((command, true) ∷ rest) action = rw (stays_started rest (action_of command)) refl
first_action ((command, false) ∷ rest) action = first_action rest (action_of command)

-- After any power commands the console makes the transition of the first one that a thread could be
-- started for, whatever later ones ask for and are told.
pub power_commands-first_started :
    (commands : List (PowerCommand × Bool))
    → power_thread (power_commands commands nothing_pending) ≡ first_started commands
power_commands-first_started commands = first_action commands reboot
