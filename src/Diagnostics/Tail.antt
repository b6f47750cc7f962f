-- ===== src/Diagnostics/Tail.antt =====
-- What `ReadLog` returns of a file.
use switch_mcp.Base.{
  ℕ, ◌-◌, ◌*◌, ◌^◌, ◌≤◌, ◌<◌, Bool, true, false, not, ◌||◌, none, some, ◌≡◌, ◌⊎◌, inl, inr, arith,
  ltb, if◌then◌else◌, Bytes, length, drop, length-drop, length-take, subst, Bool-cases,
  Option-cases, ◌++◌, [], take, take-append-drop, sym, codes, has_prefix, finds, has_prefix_iff,
  Holds, finds-Holds, Holds-finds,
}
use switch_mcp.Wire.Words.{lt64}
use switch_mcp.Json.Value.{as_int, as_string, boolean, string}
use switch_mcp.Agent.{Request, Answer, field_of, put, refuse, empty_reply}
use switch_mcp.Files.{Storage, Opened}
use switch_mcp.Diagnostics.{default_log, is_refused, max_bytes_of, log_reply, read_log}

-- How many bytes are wanted, for the 64-bit pattern that was asked for: the number itself from 1 to
-- 262144, and 16384 for zero, for a larger one and for a negative one, whose pattern is larger.
pub data Asked (asked : ℕ) : ℕ → Type 0 where
  as_asked : 0 < asked → asked ≤ 262144 → Asked asked asked
  by_default : (asked ≡ 0) ⊎ (262144 < asked) → Asked asked 16384

-- A path of the SD card in which no ".." stands.
pub record IsInside (path : Bytes) : Type 0 where
  pub below : Bytes
  pub under : path ≡ codes "sdmc:/" ++ below
  pub climbs_not : ¬ Holds (codes "..") path

pub data IsOutside (path : Bytes) : Type 0 where
  elsewhere : ¬ ((rest : Bytes) × (path ≡ codes "sdmc:/" ++ rest)) → IsOutside path
  climbs : Holds (codes "..") path → IsOutside path

-- The back of a text that is wanted: the last `n` bytes, or the whole of a shorter text.
pub data IsBack (n : ℕ) (text : Bytes) : Bytes → Bytes → Type 0 where
  whole : length text ≤ n → IsBack n text [] text
  cut :
      (front back : Bytes)
      → text ≡ front ++ back
      → 0 < length front
      → length back ≡ n
      → IsBack n text front back

-- What a request for the log at a path comes to, with `n` bytes wanted: it is refused for the path or
-- for want of a file, or it gets the back of the file and is told whether there is a front before it.
pub data IsTail (storage : Storage) (d : storage.Disk) (path : Bytes) (n : ℕ)
    : Answer → Type 0 where
  bad_path :
      IsOutside path
      → IsTail storage d path n (refuse "bad_path" "only sdmc: paths without .. allowed")
  not_found :
      IsInside path
      → storage.open_read path d ≡ none
      → IsTail storage d path n (refuse "not_found" "cannot open log")
  tail_of :
      (f : Opened) (front back : Bytes)
      → IsInside path
      → storage.open_read path d ≡ some f
      → IsBack n f.text front back
      → IsTail storage d path n (
        true,
        put "truncated" (boolean (ltb 0 (length front))) (put "content" (string back) empty_reply),
      )

positive : (x : ℕ) → x < 2 ^ 64 → (not (lt64 0 x) || lt64 262144 x) ≡ false → 0 < x
positive x h e = ground (arith, h, e)

small : (x : ℕ) → x < 2 ^ 64 → (not (lt64 0 x) || lt64 262144 x) ≡ false → x ≤ 262144
small x h e = ground (arith, h, e)

odd : (x : ℕ) → x < 2 ^ 64 → (not (lt64 0 x) || lt64 262144 x) ≡ true → (x ≡ 0) ⊎ (262144 < x)
odd x h e = ground (arith, h, e)

wanted :
    (x : ℕ) → x < 2 ^ 64 → Asked x (if not (lt64 0 x) || lt64 (256 * 1024) x then 16 * 1024 else x)
wanted x h = elim (Bool-cases (not (lt64 0 x) || lt64 262144 x)) [
  | inl e ↦ rw e (by_default (odd x h e))
  | inr e ↦ rw e (as_asked (positive x h e) (small x h e))
]

inside : (path : Bytes) → is_refused path ≡ false → IsInside path
inside path e =
    let under : has_prefix (codes "sdmc:/") path ≡ true = ground (arith, e) in
    let (below, q) = (has_prefix_iff (codes "sdmc:/") path).0 under in
    record {
      below = below;
      under = q;
      climbs_not = λ h. ground (arith, e, Holds-finds (codes "..") path h);
    }

||_cases : (a b : Bool) → (not a || b) ≡ true → (a ≡ false) ⊎ (b ≡ true)
||_cases a b e = ground (arith, e)

outside : (path : Bytes) → is_refused path ≡ true → IsOutside path
outside path e = elim (||_cases (has_prefix (codes "sdmc:/") path) (finds (codes "..") path) e) [
  | inl other ↦ elsewhere (λ h. ground (arith, other, (has_prefix_iff (codes "sdmc:/") path).1 h))
  | inr up ↦ climbs (finds-Holds (codes "..") path up)
]

module _ (storage : Storage) (d : storage.Disk) where
  cut_reply :
      (path : Bytes) (f : Opened) (n : ℕ)
      → IsInside path
      → storage.open_read path d ≡ some f
      → n < length f.text
      → IsTail storage d path n (
        true,
        put "truncated"
            (boolean (ltb 0 (length f.text - n)))
            (put "content" (string (drop (length f.text - n) f.text)) empty_reply),
      )
  cut_reply path f n ok e long =
      let start = length f.text - n in
      let front : length (take start f.text) ≡ start = omega (arith, length-take start f.text) in
      subst
        (λ k. IsTail storage d path n (
          true,
          put "truncated" (boolean (ltb 0 k))
              (put "content" (string (drop start f.text)) empty_reply),
        ))
        front
        (tail_of f (take start f.text) (drop start f.text) ok e (
          cut _ _ (sym (take-append-drop start f.text)) (omega (arith, front, long))
            (omega (arith, length-drop start f.text, long))))

  log_reply-IsTail :
      (path : Bytes) (f : Opened) (n : ℕ)
      → IsInside path
      → storage.open_read path d ≡ some f
      → IsTail storage d path n (true, log_reply n f.text)
  log_reply-IsTail path f n ok e = elim (Bool-cases (ltb n (length f.text))) [
    | inr fits ↦ rw fits (tail_of f [] f.text ok e (whole (ground (arith, fits))))
    | inl long ↦ rw long (cut_reply path f n ok e (ground (arith, long)))
  ]

  -- `ReadLog` reads no path outside the SD card and none with ".."; of any other file that opens it
  -- returns the last `max_bytes` bytes, or all of a shorter file, and says whether the file was cut. It
  -- takes 16 KiB where the number is not from 1 to 256 KiB. The asked number is a 64-bit pattern.
  pub read_log-IsTail :
      (req : Request)
      → as_int (field_of req "max_bytes") (16 * 1024) < 2 ^ 64
      → (n : ℕ) × Asked (as_int (field_of req "max_bytes") (16 * 1024)) n
        × IsTail storage d (as_string (field_of req "path") default_log) n (read_log storage d req)
  unfolding read_log
  read_log-IsTail req pattern =
      let path = as_string (field_of req "path") default_log in
      (
        max_bytes_of req,
        wanted _ pattern,
        elim (Bool-cases (is_refused path)) [
          | inl e ↦ rw e (bad_path (outside path e))
          | inr ok ↦ rw ok (elim (Option-cases (storage.open_read path d)) [
            | inl e ↦ rw e (not_found (inside path ok) e)
            | inr (f, e) ↦ rw e (log_reply-IsTail path f (max_bytes_of req) (inside path ok) e)
          ])
        ],
      )
