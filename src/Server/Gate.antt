-- ===== src/Server/Gate.antt =====
-- `TierName`, `CheckTier` and `SecureEqual` of agent/source/server.cpp. A refusal is logged in the
-- source; the log is not modelled.
use switch_mcp.Base.{
  ℕ, ◌≤◌, Bool, true, false, not, ◌&&◌, ◌||◌, [], ◌∷◌, ◌++◌, bit_or, bit_xor, String, ◌≡◌, ◌⊎◌, ltb,
  ◌==◌, if◌then◌else◌, length, Bytes, codes, eq,
}
use switch_mcp.Agent.{Tier, observe, control, invasive, tier_value, AgentConfig, Reply, fail}
use switch_mcp.Server.Table.{Command}

abbrev pub tier_name : Tier → Bytes
tier_name observe = codes "observe"
tier_name control = codes "control"
tier_name invasive = codes "invasive"

abbrev is : Bytes → String → Bool
is cmd name = eq cmd (codes name)

abbrev pub needs_hardware : Bytes → Bool
needs_hardware cmd = is cmd "i2c.write" || is cmd "gpio.read" || is cmd "i2c.read"

abbrev pub needs_overclock : Bytes → Bool
needs_overclock cmd = is cmd "set_clocks"

abbrev pub needs_nand_write : Bytes → Bool
needs_nand_write cmd = is cmd "uninstall" || is cmd "save.restore"

abbrev tier_message : Bytes → Tier → Tier → Bytes
tier_message cmd needed configured =
    codes "'"
    ++ (cmd
        ++ (codes "' requires tier="
            ++ (tier_name needed
                ++ (codes " but the agent is configured for tier="
                    ++ (tier_name configured
                        ++ codes
                            ". Raise `tier` in sd:/config/switch-agentd/config.ini and restart the agent.")))))

-- The second part is `reply`.
unfoldable pub check_tier : Bytes → Command → AgentConfig → Reply → Bool × Reply
check_tier cmd c cfg reply =
    if ltb (tier_value cfg.tier) (tier_value c.tier)
    then (false, fail "tier_denied" (tier_message cmd c.tier cfg.tier))
    else if needs_hardware cmd && not cfg.allow_hardware
    then (
      false,
      fail "disabled" (codes "raw hardware bus access requires allow_hardware=true in config"),
    )
    else if needs_overclock cmd && not cfg.allow_overclock
    then (false, fail "disabled" (codes "clock control requires allow_overclock=true in config"))
    else if needs_nand_write cmd && not cfg.allow_nand_write
    then (
      false,
      fail "disabled" (
          codes "'"
          ++ (cmd ++ codes "' writes to NAND and requires allow_nand_write=true in config")),
    )
    else (true, reply)

-- The configuration permits the command: its tier, and the switch of each sharp edge it touches.
pub record Permits (cmd : Bytes) (c : Command) (cfg : AgentConfig) : Type 0 where
  pub tier_reached : tier_value c.tier ≤ tier_value cfg.tier
  pub hardware : (needs_hardware cmd ≡ false) ⊎ (cfg.allow_hardware ≡ true)
  pub overclock : (needs_overclock cmd ≡ false) ⊎ (cfg.allow_overclock ≡ true)
  pub nand_write : (needs_nand_write cmd ≡ false) ⊎ (cfg.allow_nand_write ≡ true)

-- The loop `diff |= a[i] ^ b[i]`.
unfoldable pub difference : ℕ → Bytes → Bytes → ℕ
difference diff [] b = diff
difference diff (x ∷ xs) [] = diff
difference diff (x ∷ xs) (y ∷ ys) = difference (bit_or diff (bit_xor x y)) xs ys

unfoldable pub secure_equal : Bytes → Bytes → Bool
unfolding difference
secure_equal a b = if not (length a == length b) then false else difference 0 a b == 0
