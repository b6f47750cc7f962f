-- ===== src/Guards/History.antt =====
-- What is left of all that was ever written to the journal.
use switch_mcp.Base.{
  ℕ, ◌<◌, true, List, [], ◌∷◌, ◌++◌, ◌≡◌, ◌⊎◌, refl, sym, ap, ◌∙◌, arith, length, length-append,
  append_assoc, append-nil, Bytes, inl, inr,
}
use switch_mcp.Guards.{journal_max_bytes, Guards, Card, journal_line, contents, journal_append}
use switch_mcp.Guards.Trail.{Recorded, appended, put_aside, journal_append-Recorded}

-- What was put aside, and behind it the journal.
abbrev pub trail : Guards → Bytes
trail g = contents g.rotated ++ contents g.journal

-- The two files are the end of a history, the whole of it or more than 512 KiB.
pub record Keeps (history : Bytes) (g : Guards) : Type 0 where
  pub lost : Bytes
  pub split : history ≡ lost ++ trail g
  pub enough : (lost ≡ []) ⊎ (journal_max_bytes < length (trail g))

-- An operation's time, name and detail.
abbrev pub Entry : Type 0
Entry = ℕ × Bytes × Bytes

abbrev pub lines : List Entry → Bytes
lines [] = []
lines ((secs, op, detail) ∷ es) = journal_line secs op detail ++ lines es

abbrev pub journal_appends : Card → List Entry → Guards → Guards
journal_appends card [] g = g
journal_appends card ((secs, op, detail) ∷ es) g =
    journal_appends card es (journal_append card secs op detail g)

longer :
    (lost front line : Bytes)
    → (lost ≡ []) ⊎ (journal_max_bytes < length front)
    → (lost ≡ []) ⊎ (journal_max_bytes < length (front ++ line))
longer lost front line (inl e) = inl e
longer lost front line (inr h) = inr (omega (arith, length-append front line, h))

Recorded-Keeps :
    (card : Card) (line history : Bytes) (g : Guards) {g' : Guards}
    → Keeps history g
    → Recorded card line g g'
    → Keeps (history ++ line) g'
Recorded-Keeps card line history g k (appended why) =
    let joined = append_assoc (contents g.rotated) (contents g.journal) line in
    let still = longer k.lost (trail g) line k.enough in
    record {
      lost = k.lost;
      split =
          ap (λ h. h ++ line) k.split
          ∙ append_assoc k.lost (trail g) line
          ∙ ap (λ t. k.lost ++ t) joined;
      enough = rw joined at still;
    }
Recorded-Keeps card line history g k (put_aside long) =
    let new = contents g.journal ++ line in
    record {
      lost = k.lost ++ contents g.rotated;
      split = rw (append-nil new) (
          ap (λ h. h ++ line) k.split
          ∙ append_assoc k.lost (trail g) line
          ∙ ap (λ t. k.lost ++ t) (append_assoc (contents g.rotated) (contents g.journal) line)
          ∙ sym (append_assoc k.lost (contents g.rotated) new));
      enough = inr (rw (append-nil new) long);
    }

journal_appends-Keeps :
    (card : Card) (es : List Entry) (history : Bytes) (g : Guards)
    → card.opens ≡ true
    → Keeps history g
    → Keeps (history ++ lines es) (journal_appends card es g)
journal_appends-Keeps card [] history g e k = rw (append-nil history) k
journal_appends-Keeps card ((secs, op, detail) ∷ es) history g e k =
    let line = journal_line secs op detail in
    rw (sym (append_assoc history line (lines es))) (
      journal_appends-Keeps card es (history ++ line) (journal_append card secs op detail g) e
        (Recorded-Keeps card line history g k (journal_append-Recorded card secs op detail g e)))

-- On a card whose files open, `journal.log.1` and behind it `journal.log` are, after any number of
-- entries, the end of all that was recorded: of what the two files held before and the entries in
-- their order. Nothing is lost unless the two files hold more than 512 KiB; the oldest part goes when
-- a full journal replaces the one that was put aside before.
pub journal_appends-Kept :
    (card : Card) (es : List Entry) (g : Guards)
    → card.opens ≡ true
    → Keeps (trail g ++ lines es) (journal_appends card es g)
journal_appends-Kept card es g e =
    journal_appends-Keeps card es (trail g) g e
      (record { lost = []; split = refl; enough = inl refl })
