-- ===== src/Json/RoundTrip/Values.antt =====
-- The round trip of whole values.
use switch_mcp.Base.{
  ℕ, zero, suc, ◌+◌, ◌*◌, ◌≤◌, ◌<◌, Bool, true, false, [], ◌∷◌, ◌++◌, append_assoc, append-nil,
  some, ◌≡◌, refl, sym, ap, ◌∙◌, arith, length, length-append, Bytes,
}
use Prim.Native.Nat.{max}
use switch_mcp.Json.Order.{
  Precedes, concat_items, concat_fields, concat_items-push_back, insert-Ahead, concat_fields_assoc,
  Precedes-insert, Precedes-end,
}
use switch_mcp.Json.Value.{
  Value, null, boolean, int, double, string, array, object, Items, nil, cons, Fields, end, field,
  push_back,
}
use switch_mcp.Json.Write.{write, write_items, write_fields, write_string}
use switch_mcp.Json.Parse.{ok, parse_value, array_loop, object_loop, parse, accepted}
use switch_mcp.Json.RoundTrip.Grammar.{
  IsExact, AllExact, FieldsExact, write-Starts, read_null, read_boolean, read_int, read_string,
  read_empty, open_array, element_more, element_last, open_object, member_more, member_last,
}
use switch_mcp.Json.RoundTrip.Text.{Stops, print_i64-StartsNumber, StartsNumber}

-- The fuel that reading a value takes.
unfoldable mutual
  need : Value → ℕ
  need null = 1
  need (boolean b) = 1
  need (int i) = 1
  need (double d) = 1
  need (string s) = 1
  need (array xs) = suc (need_items xs)
  need (object fs) = suc (need_fields fs)

  need_items : Items → ℕ
  need_items nil = 0
  need_items (cons v xs) = suc (max (need v) (need_items xs))

  need_fields : Fields → ℕ
  need_fields end = 0
  need_fields (field k v fs) = suc (max (need v) (need_fields fs))

abbrev IsCons : Items → Type 0
IsCons nil = ⊥
IsCons (cons v xs) = Unit

abbrev IsField : Fields → Type 0
IsField end = ⊥
IsField (field k v fs) = Unit

-- How the written texts are grouped: the parser's lemmas want each piece in front of its rest.
array_text : (x xs rest : Bytes) → ((x ++ xs) ++ b']' ∷ []) ++ rest ≡ x ++ (xs ++ (b']' ∷ rest))
array_text x xs rest = simp append_assoc

member_text :
    (k x xs rest : Bytes)
    → (write_string k ++ (b':' ∷ (x ++ xs))) ++ rest
      ≡ write_string k ++ (b':' ∷ (x ++ (xs ++ rest)))
member_text k x xs rest = simp append_assoc

object_text :
    (k x xs rest : Bytes)
    → ((write_string k ++ (b':' ∷ (x ++ xs))) ++ b'}' ∷ []) ++ rest
      ≡ write_string k ++ (b':' ∷ (x ++ (xs ++ (b'}' ∷ rest))))
object_text k x xs rest = simp append_assoc

push_back-concat : (out : Items) (v : Value) → push_back out v ≡ concat_items out (cons v nil)
unfolding push_back
push_back-concat nil v = refl
push_back-concat (cons x out) v = ap (cons x) (push_back-concat out v)

length_start : {s : Bytes} → StartsNumber s → 0 < length s
length_start n = rw n.shape (omega arith)

need-pos : (v : Value) → 0 < need v
unfolding need
need-pos null = omega arith
need-pos (array xs) = omega arith
need-pos (object fs) = omega arith
need-pos _ = omega arith

length_member :
    (k x xs : Bytes) → length x + length xs ≤ length (write_string k ++ (b':' ∷ (x ++ xs)))
length_member k x xs =
    omega (arith, length-append (write_string k) (b':' ∷ (x ++ xs)), length-append x xs)

module _ (print_double : ℕ → Bytes) (strtod : Bytes → ℕ) where
  mutual
    unfolding need write

    read_write :
        (v : Value) (fuel : ℕ) (rest : Bytes)
        → IsExact v
        → need v ≤ fuel
        → Stops rest
        → parse_value strtod fuel (write print_double v ++ rest) ≡ ok v rest
    read_write null zero rest e f h = absurd (omega arith)
    read_write null (suc fuel) rest e f h = read_null print_double strtod fuel rest
    read_write (boolean b) zero rest e f h = absurd (omega arith)
    read_write (boolean b) (suc fuel) rest e f h = read_boolean print_double strtod b fuel rest
    read_write (int i) zero rest e f h = absurd (omega arith)
    read_write (int i) (suc fuel) rest e f h = read_int print_double strtod i fuel rest e h
    read_write (double d) fuel rest e f h = elim e [ ]
    read_write (string s) zero rest e f h = absurd (omega arith)
    read_write (string s) (suc fuel) rest e f h = read_string print_double strtod s fuel rest
    read_write (array xs) zero rest e f h = absurd (omega arith)
    read_write (array nil) (suc fuel) rest e f h = (read_empty print_double strtod fuel rest).0
    read_write (array (cons x xs)) (suc fuel) rest e f h =
        let head = write print_double x in
        let others = write_items print_double false xs in
        rw (array_text head others rest) (
          open_array print_double strtod head (others ++ (b']' ∷ rest)) fuel
            (write-Starts print_double strtod x e.0)
          ∙ rw (← append_assoc head others (b']' ∷ rest))
              (read_items (cons x xs) fuel rest nil tt e (omega arith)))
    read_write (object fs) zero rest e f h = absurd (omega arith)
    read_write (object end) (suc fuel) rest e f h = (read_empty print_double strtod fuel rest).1
    read_write (object (field k v fs)) (suc fuel) rest e f h =
        let head = write print_double v in
        let others = write_fields print_double false fs in
        ap (λ t. parse_value strtod (suc fuel) (b'{' ∷ t)) (object_text k head others rest)
        ∙ open_object print_double strtod k (b':' ∷ (head ++ (others ++ (b'}' ∷ rest)))) fuel
        ∙ ap (λ t. object_loop strtod fuel t end) (sym (member_text k head others (b'}' ∷ rest)))
        ∙ read_fields (field k v fs) fuel rest end tt e (Precedes-end (field k v fs)) (omega arith)

    read_items :
        (xs : Items) (fuel : ℕ) (rest : Bytes) (out : Items)
        → IsCons xs
        → AllExact xs
        → need_items xs ≤ fuel
        → array_loop strtod fuel (write_items print_double true xs ++ (b']' ∷ rest)) out
          ≡ ok (array (concat_items out xs)) rest
    read_items nil fuel rest out c e f = elim c [ ]
    read_items (cons v xs) zero rest out c e f = absurd (omega arith)
    read_items (cons v nil) (suc fuel) rest out c e f =
        let head = write print_double v in
        ap (λ t. array_loop strtod (suc fuel) (t ++ (b']' ∷ rest)) out) (append-nil head)
        ∙ element_last print_double strtod v head rest fuel out
            (read_write v fuel (b']' ∷ rest) e.0 (omega arith) refl)
        ∙ ap (λ xs. ok (array xs) rest) (push_back-concat out v)
    read_items (cons v (cons x xs)) (suc fuel) rest out c e f =
        let head = write print_double v in
        let others = write_items print_double true (cons x xs) in
        ap (λ t. array_loop strtod (suc fuel) t out)
          (append_assoc head (b',' ∷ others) (b']' ∷ rest))
        ∙ element_more print_double strtod v head (others ++ (b']' ∷ rest)) fuel out
            (read_write v fuel (b',' ∷ (others ++ (b']' ∷ rest))) e.0 (omega arith) refl)
        ∙ read_items (cons x xs) fuel rest (push_back out v) tt e.1 (omega arith)
        ∙ ap (λ ys. ok (array ys) rest) (concat_items-push_back out (cons x xs) v)

    read_fields :
        (fs : Fields) (fuel : ℕ) (rest : Bytes) (out : Fields)
        → IsField fs
        → FieldsExact fs
        → Precedes out fs
        → need_fields fs ≤ fuel
        → object_loop strtod fuel (write_fields print_double true fs ++ (b'}' ∷ rest)) out
          ≡ ok (object (concat_fields out fs)) rest
    read_fields end fuel rest out c e p f = elim c [ ]
    read_fields (field k v fs) zero rest out c e p f = absurd (omega arith)
    read_fields (field k v end) (suc fuel) rest out c e p f =
        let head = write print_double v in
        ap (λ t. object_loop strtod (suc fuel) t out) (member_text k head [] (b'}' ∷ rest))
        ∙ member_last print_double strtod k v head rest fuel out
            (read_write v fuel (b'}' ∷ rest) e.1 (omega arith) refl)
        ∙ ap (λ gs. ok (object gs) rest) (insert-Ahead out k v p.0)
    read_fields (field k v (field j w fs)) (suc fuel) rest out c e p f =
        let head = write print_double v in
        let others = write_fields print_double true (field j w fs) in
        ap (λ t. object_loop strtod (suc fuel) t out)
          (member_text k head (b',' ∷ others) (b'}' ∷ rest))
        ∙ member_more print_double strtod k v head (others ++ (b'}' ∷ rest)) fuel out
            (read_write v fuel (b',' ∷ (others ++ (b'}' ∷ rest))) e.1 (omega arith) refl)
        ∙ ap (object_loop strtod fuel (others ++ (b'}' ∷ rest))) (insert-Ahead out k v p.0)
        ∙ read_fields (field j w fs) fuel rest (concat_fields out (field k v end)) tt e.2
            (Precedes-insert out k v (field j w fs) p.1 e.0) (omega arith)
        ∙ ap (λ gs. ok (object gs) rest) (concat_fields_assoc out k v (field j w fs))

  mutual
    unfolding need write

    need-length : (v : Value) → IsExact v → need v ≤ 2 * length (write print_double v)
    need-length null e = omega arith
    need-length (boolean true) e = omega arith
    need-length (boolean false) e = omega arith
    need-length (int i) e = omega (arith, length_start (print_i64-StartsNumber i))
    need-length (double d) e = elim e [ ]
    need-length (string s) e = omega arith
    need-length (array xs) e = omega (
      arith,
      length-append (write_items print_double true xs) (b']' ∷ []),
      need_items-length xs true e,
    )
    need-length (object fs) e = omega (
      arith,
      length-append (write_fields print_double true fs) (b'}' ∷ []),
      need_fields-length fs true e,
    )

    need_items-length :
        (xs : Items) (first : Bool)
        → AllExact xs
        → need_items xs ≤ 2 * length (write_items print_double first xs) + 1
    need_items-length nil first e = omega arith
    need_items-length (cons v xs) true e = omega (
      arith,
      length-append (write print_double v) (write_items print_double false xs),
      need-length v e.0,
      need-pos v,
      need_items-length xs false e.1,
    )
    need_items-length (cons v xs) false e = omega (
      arith,
      length-append (write print_double v) (write_items print_double false xs),
      need-length v e.0,
      need-pos v,
      need_items-length xs false e.1,
    )

    need_fields-length :
        (fs : Fields) (first : Bool)
        → FieldsExact fs
        → need_fields fs ≤ 2 * length (write_fields print_double first fs) + 1
    need_fields-length end first e = omega arith
    need_fields-length (field k v fs) true e = omega (
      arith,
      length_member k (write print_double v) (write_fields print_double false fs),
      need-length v e.1,
      need-pos v,
      need_fields-length fs false e.2,
    )
    need_fields-length (field k v fs) false e = omega (
      arith,
      length_member k (write print_double v) (write_fields print_double false fs),
      need-length v e.1,
      need-pos v,
      need_fields-length fs false e.2,
    )

  -- Every value that holds no double, whose integers are of 64 bits and whose objects are in the
  -- order of their map, comes back from `parse` of its `dump` unchanged.
  pub parse-write : (v : Value) → IsExact v → parse strtod (write print_double v) ≡ some v
  unfolding parse
  parse-write v e =
      let text = write print_double v in
      let read = read_write v (2 * length text + 2) [] e (omega (arith, need-length v e)) tt in
      ap accepted (rw (append-nil text) at read)
