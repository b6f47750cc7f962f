-- ===== src/Debug/Watching.antt =====
-- Which accesses to which bytes the hardware registers set by the debugger select.
use switch_mcp.Base.{
  ℕ, ◌+◌, ◌-◌, ◌/◌, ◌%◌, ◌^◌, ◌<◌, ◌≤◌, Bool, true, false, not, ◌&&◌, ◌||◌, [], ◌∷◌, none, some,
  ltb, leb, ◌==◌, if◌then◌else◌, Bytes, codes, ◌≡◌, refl, subst, ◌⊎◌, inl, inr, arith, Bool-cases,
  Option-cases, &&-eq-true, eq, eq_iff, eq_of_some, sym, ◌∙◌,
}
use switch_mcp.Server.Equality.{every_byte, byte_passes}
use switch_mcp.Json.Value.{has, as_int, as_string}
use switch_mcp.Wire.Words.{to_i32}
use switch_mcp.Agent.{Answer, Request, Reply, field_of}
use switch_mcp.Debug.{
  watchpoint_ctl, HwCall, Debugged, is_size, is_outside, access_of, byte_select, watch,
  checked_watch, set_watchpoint,
}

abbrev pub bit_at : ℕ → ℕ → Bool
bit_at n word = word / 2 ^ n % 2 == 1

-- Whether a watchpoint register selects a byte: it is in the doubleword, and its bit is set.
abbrev pub selects : HwCall → ℕ → Bool
selects call b =
    leb call.value b && ltb b (call.value + 8) && bit_at (5 + (b - call.value)) call.ctl

abbrev same : Bool → Bool → Bool
same true b = b
same false b = not b

abbrev select_fact : ℕ → ℕ → ℕ → ℕ → Bool
select_fact lsc size offset k =
    not (is_size size)
    || ltb 8 (offset + size)
    || same (bit_at (5 + k) (watchpoint_ctl lsc (byte_select size offset)))
        (leb offset k && ltb k (offset + size))

select_table :
    every_byte
      (λ lsc.
        every_byte (λ size. every_byte (λ offset. every_byte (select_fact lsc size offset) 8) 8) 9)
      4
    ≡ true
unfolding every_byte watchpoint_ctl
select_table = refl

same-eq : (a b : Bool) → same a b ≡ true → a ≡ b
same-eq true true e = refl
same-eq true false e = ground (arith, e)
same-eq false true e = ground (arith, e)
same-eq false false e = refl

guarded :
    (sized over fact : Bool)
    → sized ≡ true
    → over ≡ false
    → (not sized || over || fact) ≡ true
    → fact ≡ true
guarded true false fact s o e = e
guarded true true fact s o e = ground (arith, o)
guarded false over fact s o e = ground (arith, s)

select_bit :
    (lsc size offset k : ℕ)
    → lsc < 4
    → is_size size ≡ true
    → offset < 8
    → k < 8
    → ltb 8 (offset + size) ≡ false
    → bit_at (5 + k) (watchpoint_ctl lsc (byte_select size offset))
      ≡ (leb offset k && ltb k (offset + size))
select_bit lsc size offset k l s o k_below fits =
    let small : size < 9 = ground (arith, s) in
    let fact = byte_passes (select_fact lsc size offset) 8 k k_below (
      byte_passes _ 8 offset o (
        byte_passes _ 9 size small (
          byte_passes
            (λ lsc.
              every_byte
                (λ size. every_byte (λ offset. every_byte (select_fact lsc size offset) 8) 8) 9)
            4 lsc l select_table))) in
    same-eq _ _ (guarded _ _ _ s fits fact)

selects-between :
    (base offset size b : ℕ) (bit : Bool)
    → offset + size ≤ 8
    → (leb base b && ltb b (base + 8)) ≡ true
    → bit ≡ (leb offset (b - base) && ltb (b - base) (offset + size))
    → (leb base b && ltb b (base + 8) && bit)
      ≡ (leb (base + offset) b && ltb b (base + offset + size))
selects-between base offset size b bit fits inside e = ground (arith, e, inside, fits)

selects-outside :
    (base offset size b : ℕ) (bit : Bool)
    → offset + size ≤ 8
    → (leb base b && ltb b (base + 8)) ≡ false
    → (leb base b && ltb b (base + 8) && bit)
      ≡ (leb (base + offset) b && ltb b (base + offset + size))
selects-outside base offset size b bit fits inside = ground (arith, inside, fits)

selects_lem :
    (which lsc size addr b : ℕ)
    → lsc < 4
    → is_size size ≡ true
    → ltb 8 (addr % 8 + size) ≡ false
    → selects
        (record {
          which = which;
          ctl = watchpoint_ctl lsc (byte_select size (addr % 8));
          value = addr - addr % 8;
        })
        b
      ≡ (leb addr b && ltb b (addr + size))
selects_lem which lsc size addr b l s fits =
    let base = addr - addr % 8 in
    let whole : base + addr % 8 ≡ addr = omega arith in
    let small : addr % 8 + size ≤ 8 = ground (arith, fits) in
    elim (Bool-cases (leb base b && ltb b (base + 8))) [
      | inl e ↦
          subst
            (λ a.
              selects
                (record {
                  which = which;
                  ctl = watchpoint_ctl lsc (byte_select size (addr % 8));
                  value = base;
                })
                b
              ≡ (leb a b && ltb b (a + size)))
            whole
            (selects-between base (addr % 8) size b _ small e (
              select_bit lsc size (addr % 8) (b - base) l s (omega arith) (ground (arith, e)) fits))
      | inr e ↦
          subst
            (λ a.
              selects
                (record {
                  which = which;
                  ctl = watchpoint_ctl lsc (byte_select size (addr % 8));
                  value = base;
                })
                b
              ≡ (leb a b && ltb b (a + size)))
            whole (selects-outside base (addr % 8) size b _ small e)
    ]

-- What the control word says of the register and the accesses.
abbrev access_fact : ℕ → ℕ → ℕ → Bool
access_fact lsc size offset =
    let ctl = watchpoint_ctl lsc (byte_select size offset) in
    bit_at 0 ctl && same (bit_at 3 ctl) (bit_at 0 lsc) && same (bit_at 4 ctl) (bit_at 1 lsc)

access_table :
    every_byte (λ lsc. every_byte (λ size. every_byte (access_fact lsc size) 8) 9) 4 ≡ true
unfolding every_byte watchpoint_ctl
access_table = refl

all_three : (a b c d e : Bool) → (a && same b c && same d e) ≡ true → (a ≡ true) × (b ≡ c) × (d ≡ e)
all_three a b c d e h =
    let (front, third) = &&-eq-true (a && same b c) (same d e) h in
    let (first, second) = &&-eq-true a (same b c) front in
    (first, same-eq b c second, same-eq d e third)

access_bits :
    (lsc size offset : ℕ)
    → lsc < 4
    → is_size size ≡ true
    → offset < 8
    → let ctl = watchpoint_ctl lsc (byte_select size offset) in
      (bit_at 0 ctl ≡ true) × (bit_at 3 ctl ≡ bit_at 0 lsc) × (bit_at 4 ctl ≡ bit_at 1 lsc)
access_bits lsc size offset l s o =
    let small : size < 9 = ground (arith, s) in
    let fact = byte_passes (access_fact lsc size) 8 offset o (
      byte_passes _ 9 size small (
        byte_passes (λ lsc. every_byte (λ size. every_byte (access_fact lsc size) 8) 9) 4 lsc l
          access_table)) in
    let ctl = watchpoint_ctl lsc (byte_select size offset) in
    all_three (bit_at 0 ctl) (bit_at 3 ctl) (bit_at 0 lsc) (bit_at 4 ctl) (bit_at 1 lsc) fact

accepted :
    (read write both : Bool) (lsc : ℕ)
    → (if read then some 1 else if write then some 2 else if both then some 3 else none) ≡ some lsc
    → (read && write) ≡ false
    → (lsc < 4) × (bit_at 0 lsc ≡ not write) × (bit_at 1 lsc ≡ not read)
accepted true true both lsc e apart = ground (arith, apart)
accepted true false both lsc e apart = rw (sym (eq_of_some e)) (omega arith, refl, refl)
accepted false true both lsc e apart = rw (sym (eq_of_some e)) (omega arith, refl, refl)
accepted false false true lsc e apart = rw (sym (eq_of_some e)) (omega arith, refl, refl)
accepted false false false lsc e apart = ground (arith, e)

read_apart : (mode : Bytes) → (eq mode (codes "read") && eq mode (codes "write")) ≡ false
read_apart mode = elim (Bool-cases (eq mode (codes "read"))) [
  | inl r ↦ rw ((eq_iff mode (codes "read")).0 r) refl
  | inr r ↦ rw r refl
]

access_modes :
    (mode : Bytes) (lsc : ℕ)
    → access_of mode ≡ some lsc
    → (lsc < 4)
      × (bit_at 0 lsc ≡ not (eq mode (codes "write")))
      × (bit_at 1 lsc ≡ not (eq mode (codes "read")))
access_modes mode lsc e = accepted _ _ _ lsc e (read_apart mode)

-- The sole call that a request leads to: a data register is set for `addr`, and it stops at the
-- mode's accesses to the byte `b` just where the byte is one of the `size` from `addr` on.
pub record Watches (call : HwCall) (mode : Bytes) (addr size slot b : ℕ) : Type 0 where
  pub register : (call.which ≡ 16 + slot) × (is_outside slot 4 ≡ false)
  pub enabled : bit_at 0 call.ctl ≡ true
  pub loads : bit_at 3 call.ctl ≡ not (eq mode (codes "write"))
  pub stores : bit_at 4 call.ctl ≡ not (eq mode (codes "read"))
  pub bytes : selects call b ≡ (leb addr b && ltb b (addr + size))

answer_of :
    (ok : Bool) (told failed : Reply)
    → (if◌then◌else◌ {A = Answer} ok (true, told) (false, failed)).0 ≡ ok
answer_of true told failed = refl
answer_of false told failed = refl

module _ (svc : HwCall → ℕ) (req : Request) (own : has req.msg (codes "ctl") ≡ false) where
  -- Nothing is set and the request is refused, or one register is, and the answer is the kernel's.
  abbrev pub IsArmed : ℕ → ℕ → ℕ → ℕ → Debugged → Type 0
  IsArmed addr size slot b r =
      ((r.0.0 ≡ false) × (r.1 ≡ []))
      ⊎ ((call : HwCall) × (r.1 ≡ call ∷ [])
          × (r.0.0 ≡ (svc call == 0))
          × Watches call (as_string (field_of req "mode") (codes "write")) addr size slot b)

  watch-IsArmed :
      (addr size slot lsc b : ℕ)
      → is_size size ≡ true
      → is_outside slot 4 ≡ false
      → ltb 8 (addr % 8 + size) ≡ false
      → access_of (as_string (field_of req "mode") (codes "write")) ≡ some lsc
      → IsArmed addr size slot b (watch svc req addr size slot lsc)
  unfolding watch
  watch-IsArmed addr size slot lsc b sized inside fits access =
      let (low, loads, stores) =
        access_modes (as_string (field_of req "mode") (codes "write")) lsc access in
      let (enabled, bit_loads, bit_stores) =
        access_bits lsc size (addr % 8) low sized (omega arith) in
      rw own (
        inr (
          _,
          refl,
          answer_of _ _ _,
          record {
            register = (refl, inside);
            enabled = enabled;
            loads = bit_loads ∙ loads;
            stores = bit_stores ∙ stores;
            bytes = selects_lem (16 + slot) lsc size addr b low sized fits;
          },
        ))

  checked_watch-IsArmed :
      (addr size slot b : ℕ)
      → IsArmed addr size slot b (
          checked_watch svc req addr size slot
            (access_of (as_string (field_of req "mode") (codes "write"))))
  unfolding checked_watch
  checked_watch-IsArmed addr size slot b = elim (Bool-cases (addr == 0)) [
    | inl e ↦ rw e (inl (refl, refl))
    | inr e ↦ rw e (elim (Bool-cases (is_size size)) [
      | inr e ↦ rw e (inl (refl, refl))
      | inl sized ↦ rw sized (elim (Bool-cases (is_outside slot 4)) [
        | inl e ↦ rw e (inl (refl, refl))
        | inr inside ↦ rw inside (elim (Bool-cases (ltb 8 (addr % 8 + size))) [
          | inl e ↦ rw e (inl (refl, refl))
          | inr fits ↦
              rw fits
                (elim (Option-cases (access_of (as_string (field_of req "mode") (codes "write")))) [
                  | inl e ↦ rw e (inl (refl, refl))
                  | inr (lsc, e) ↦ rw e (watch-IsArmed addr size slot lsc b sized inside fits e)
                ])
        ])
      ])
    ])
  ]

  -- A watchpoint request without a control word of its own is refused and sets nothing, or it sets one
  -- data register, to stop at the accesses of its mode to exactly the bytes that it names; the answer
  -- is the kernel's.
  pub set_watchpoint-IsArmed :
      (attached : Bool) (b : ℕ)
      → IsArmed
          (as_int (field_of req "addr") 0)
          (to_i32 (as_int (field_of req "size") 4))
          (to_i32 (as_int (field_of req "slot") 0))
          b
          (set_watchpoint svc attached req)
  unfolding set_watchpoint
  set_watchpoint-IsArmed true b = checked_watch-IsArmed _ _ _ b
  set_watchpoint-IsArmed false b = inl (refl, refl)
