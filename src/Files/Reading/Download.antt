-- ===== src/Files/Reading/Download.antt =====
-- A file that is read part by part.
use switch_mcp.Base.{
  drop-drop, take_short, ℕ, zero, suc, ◌+◌, ◌^◌, ◌≤◌, ◌<◌, false, [], ◌++◌, ◌≡◌, refl, sym, ◌∙◌, ap,
  arith, ltb, if◌then◌else◌, length, take, drop, take-append-drop, length-take, length-drop, Bytes,
  Bool-cases, inl, inr, codes,
}
use switch_mcp.Json.Value.{get, as_bool}
use switch_mcp.Wire.Words.{lt64}
use switch_mcp.Files.{Opened}
use switch_mcp.Files.Reading.{seek_position, read_part}

-- The replies to reads at successive offsets, up to the first that says `eof`.
unfoldable pub download : ℕ → ℕ → ℕ → Opened → Bytes
download zero len offset f = []
download (suc rounds) len offset f =
    let part = read_part offset len f in
    let rest = download rounds len (offset + len) f in
    if as_bool (get part.json (codes "eof")) false then part.out else part.out ++ rest

seek : (offset : ℕ) → offset < 2 ^ 63 → seek_position offset ≡ offset
seek offset h = let e : lt64 offset 0 ≡ false = ground (arith, h) in rw e refl

download-from :
    (rounds len offset : ℕ) (f : Opened)
    → 0 < len
    → length f.text + len < 2 ^ 63
    → offset ≤ length f.text
    → length f.text < offset + rounds
    → download rounds len offset f ≡ drop offset f.text
unfolding download read_part switch_mcp.Json.Value.insert switch_mcp.Json.Value.find
download-from zero len offset f pos small near enough = ground (arith, enough, near)
download-from (suc rounds) len offset f pos small near enough =
    let left = drop offset f.text in
    rw (seek offset (omega (arith, near, small)))
      (elim (Bool-cases (ltb (length (take len left)) len)) [
        | inl short ↦ rw short (take_short len left short)
        | inr whole ↦ rw whole (
            ap (λ x. take len left ++ x)
              (download-from rounds len (offset + len) f pos small
                  (ground (arith, whole, length-take len left, length-drop offset f.text, near))
                  (omega (arith, enough, pos))
                ∙ sym (drop-drop offset len (offset + len) f.text refl))
            ∙ take-append-drop len left)
      ])

-- Reading a file part by part, each read at the offset behind the one before it and up to the first
-- reply that says `eof`, gives the file, whatever positive length the parts have.
pub download_whole :
    (rounds len : ℕ) (f : Opened)
    → 0 < len
    → length f.text + len < 2 ^ 63
    → length f.text < rounds
    → download rounds len 0 f ≡ f.text
download_whole rounds len f pos small enough =
    download-from rounds len 0 f pos small (omega arith) (omega (arith, enough))
