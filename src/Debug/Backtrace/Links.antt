-- ===== src/Debug/Backtrace/Links.antt =====
-- The frames of a backtrace are a chain in the memory of the process.
use switch_mcp.Base.{
  ℕ, zero, suc, ◌-◌, ◌%◌, ◌^◌, ◌<◌, ◌≤◌, ◌≡◌, ◌≢◌, not, ◌||◌, List, [], ◌∷◌, some, length, arith,
  leb, ◌==◌, Bool-cases, Option-cases, inl, inr, if◌then◌else◌,
}
use switch_mcp.Agent.{Request, field_of}
use switch_mcp.Wire.Words.{to_i32, lt32}
use switch_mcp.Json.Value.{as_int}
use switch_mcp.Debug.Backtrace.{Kernel, Frame, walk_frames, max_frames_of}

at_most : (x : ℕ) → x < 2 ^ 32 → (if lt32 x 1 || lt32 64 x then 32 else x) ≤ 64
at_most x h = ground (arith, h)

module _ (k : Kernel) where
  -- The frames found behind the frame pointer `prev` from the pointer `fp` on: each stands higher than
  -- the one before at an aligned address, and the two words there are the next pointer and the return
  -- address.
  pub data Chain : ℕ → ℕ → List Frame → Type 0 where
    ends : (fp prev : ℕ) → Chain fp prev []
    links :
        (fp prev next ret : ℕ) (rest : List Frame)
        → prev < fp
        → fp % 8 ≡ 0
        → k.read_pair fp ≡ some (next, ret)
        → ret ≢ 0
        → Chain next fp rest
        → Chain fp prev (record { ret = ret; at = fp } ∷ rest)

  chained :
      (left fp prev : ℕ)
      → Chain fp prev (walk_frames k left fp prev) × (length (walk_frames k left fp prev) ≤ left)
  unfolding walk_frames
  chained zero fp prev = (ends fp prev, omega arith)
  chained (suc left) fp prev = elim (Bool-cases (fp == 0)) [
    | inl e ↦ rw e (ends fp prev, omega arith)
    | inr e ↦ rw e (elim (Bool-cases (leb fp prev || not (fp % 8 == 0))) [
      | inl e ↦ rw e (ends fp prev, omega arith)
      | inr climbs ↦ rw climbs (elim (Option-cases (k.read_pair fp)) [
        | inl e ↦ rw e (ends fp prev, omega arith)
        | inr ((next, ret), e) ↦ rw e (elim (Bool-cases (ret == 0)) [
          | inl z ↦ rw z (ends fp prev, omega arith)
          | inr z ↦
              let (chain, short) = chained left next fp in
              rw z (
                links fp prev next ret _ (ground (arith, climbs)) (ground (arith, climbs)) e
                    (ground (arith, z)) chain,
                omega (arith, short),
              )
        ])
      ])
    ])
  ]

  -- Whatever number is asked for, a backtrace is a chain from the thread's frame pointer on, and it
  -- has at most 63 frames behind the first.
  pub walk_frames-Chain :
      (req : Request) (fp : ℕ)
      → let frames = walk_frames k (max_frames_of req - 1) fp 0 in
        Chain fp 0 frames × (length frames ≤ 63)
  walk_frames-Chain req fp =
      let (chain, short) = chained (max_frames_of req - 1) fp 0 in
      let few : max_frames_of req ≤ 64 =
        at_most (to_i32 (as_int (field_of req "max_frames") 32)) (omega arith) in
      (chain, omega (arith, short, few))
