-- ===== src/Config/Privileges.antt =====
-- Where the settings that widen what the agent may do come from.
use switch_mcp.Base.{
  ℕ, false, List, [], ◌∷◌, Option, none, some, ◌≡◌, ◌≢◌, ◌⊎◌, ap, arith, Bytes, codes, Bool-cases,
  inl, inr, is_empty,
}
use switch_mcp.Agent.{AgentConfig, observe}
use switch_mcp.Server.Auth.{hex}
use switch_mcp.Config.{set_option, entry, read_file, fgets_all, parse_tier, is_on, load_config}

-- Some line has the key, with a value of which the predicate holds.
pub data Somewhere (key : Bytes) (P : Bytes → Type 0) : List Bytes → Type 0 where
  here :
      (line value : Bytes) (lines : List Bytes)
      → entry line ≡ some (key, value)
      → P value
      → Somewhere key P (line ∷ lines)
  later :
      (line : Bytes) (lines : List Bytes) → Somewhere key P lines → Somewhere key P (line ∷ lines)

module _ {A : Type 0} (field : AgentConfig → A) (key : Bytes) (read : Bytes → A) where
  -- A setting changes the field only under its key, and then to what is read.
  abbrev Controls : Type 0
  Controls =
      (k v : Bytes) (cfg : AgentConfig)
      → (field (set_option k v cfg) ≡ field cfg)
        ⊎ ((k ≡ key) × (field (set_option k v cfg) ≡ read v))

-- The lines of a configuration file.
abbrev pub lines_of : Bytes → List Bytes
lines_of text = fgets_all 511 511 [] text

-- The settings that a file can widen, and those of the defaults.
pub record Earned (lines : List Bytes) (cfg : AgentConfig) : Type 0 where
  tier : (cfg.tier ≡ observe) ⊎ Somewhere (codes "tier") (λ v. cfg.tier ≡ parse_tier v) lines
  nand :
      (cfg.allow_nand_write ≡ false)
      ⊎ Somewhere (codes "allow_nand_write") (λ v. cfg.allow_nand_write ≡ is_on v) lines
  overclock :
      (cfg.allow_overclock ≡ false)
      ⊎ Somewhere (codes "allow_overclock") (λ v. cfg.allow_overclock ≡ is_on v) lines
  hardware :
      (cfg.allow_hardware ≡ false)
      ⊎ Somewhere (codes "allow_hardware") (λ v. cfg.allow_hardware ≡ is_on v) lines

abbrev pub lines_in : Option Bytes → List Bytes
lines_in none = []
lines_in (some text) = lines_of text

-- The token is never empty, given that the generator filled in a byte.
pub load_config_token :
    (b : ℕ) (random : Bytes) (file emummc other : Option Bytes)
    → (load_config (b ∷ random) file emummc other).token ≢ []
unfolding load_config hex
load_config_token b random file emummc other = elim (Bool-cases (is_empty (read_file file).token)) [
  | inl e ↦ rw e (λ wrong. ground arith)
  | inr e ↦ rw e (λ empty. ground (arith, ap is_empty empty, e))
]
