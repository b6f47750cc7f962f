-- ===== src/Agent.antt =====
-- agent/source/protocol.hpp, and `Fail`, `IsDryRun` of agent/source/server.cpp.
use switch_mcp.Base.{
  ℕ, Bool, true, false, ◌||◌, Bytes, codes, String, [], ◌==◌, ◌∷◌, if◌then◌else◌, Option, none,
  some, ◌^◌,
}
use switch_mcp.Wire.Words.{to_i32, lt32, lt64}
use switch_mcp.Json.Value.{Value, string, empty_object, set, get, as_bool, as_int}

pub data Tier : Type 0 where
  observe control invasive : Tier

-- The enumerators' values.
abbrev pub tier_value : Tier → ℕ
tier_value observe = 0
tier_value control = 1
tier_value invasive = 2

pub record AgentConfig : Type 0 where
  pub port : ℕ
  pub token : Bytes
  pub log_level : ℕ
  pub tier : Tier
  pub allow_nand_write : Bool
  pub allow_overclock : Bool
  pub allow_hardware : Bool
  pub clear_lockscreen_on_boot : Bool
  pub keep_awake_minutes : ℕ
  pub require_hmac_auth : Bool
  pub enable_psc : Bool
  pub enable_usb : Bool
  pub is_emummc : Bool

-- The member initialisers.
abbrev pub default_config : AgentConfig
default_config = record {
  port = 6060;
  token = [];
  log_level = 2;
  tier = observe;
  allow_nand_write = false;
  allow_overclock = false;
  allow_hardware = false;
  clear_lockscreen_on_boot = true;
  keep_awake_minutes = 10;
  require_hmac_auth = false;
  enable_psc = false;
  enable_usb = false;
  is_emummc = false;
}

pub record Request : Type 0 where
  pub msg : Value
  pub payload : Bytes
  pub cfg : AgentConfig

pub record Reply : Type 0 where
  pub json : Value
  pub out : Bytes

abbrev pub empty_reply : Reply
empty_reply = record { json = empty_object; out = [] }

-- `req[k]`
abbrev pub field_of : Request → String → Value
field_of req k = get req.msg (codes k)

-- `reply.json.set(k, v)`
abbrev pub put : String → Value → Reply → Reply
put k v r = record r { json = set r.json (codes k) v }

abbrev pub error_object : Bytes → Bytes → Value
error_object code message =
    set (set empty_object (codes "code") (string code)) (codes "message") (string message)

-- `c_str()` ends a text at its first zero byte.
unfoldable pub c_str : Bytes → Bytes
c_str [] = []
c_str (c ∷ cs) = if c == 0 then [] else c ∷ c_str cs

-- The reply of `Fail`, which returns false.
abbrev pub fail : String → Bytes → Reply
fail code message = record {
  json = set empty_object (codes "error") (error_object (codes code) (c_str message));
  out = [];
}

unfoldable pub is_dry_run : Request → Bool
is_dry_run req = as_bool (field_of req "dry_run") false || as_int (field_of req "dry_run") 0 == 1

-- A handler's verdict and reply, where it changes nothing.
abbrev pub Answer : Type 0
Answer = Bool × Reply

-- `return Fail(reply, ...)`
abbrev pub refuse : String → String → Answer
refuse code message = (false, fail code (codes message))

-- `if (!...) return ...;` before the rest.
abbrev pub or_return {ℓ} : {A R : Type ℓ} → Option A → R → (A → R) → R
or_return none r k = r
or_return (some a) r k = k a

-- `(int)req[key].as_int(default)`, with the default again for what is out of range.
unfoldable pub bounded_int : Request → String → ℕ → ℕ → ℕ → ℕ
bounded_int req key default low high =
    let i = to_i32 (as_int (field_of req key) default) in
    if lt32 i low || lt32 high i then default else i

-- `(int64_t)x < (int64_t)y` for the lengths of reads: what is out of range is 1 MiB.
unfoldable pub bounded_length : Request → ℕ
bounded_length req =
    let len = as_int (field_of req "len") (2 ^ 20) in
    if lt64 len 0 || lt64 (2 ^ 20) len then 2 ^ 20 else len
