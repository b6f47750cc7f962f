-- ===== src/Json/Order.antt =====
-- The order of an object's keys, and what `insert` does at the end of it.
use switch_mcp.Base.{true, false, [], ◌∷◌, ◌≡◌, refl, ap, arith, Bytes, before}
use switch_mcp.Json.Value.{Value, Items, nil, cons, Fields, end, field, insert, push_back}

-- The keys from `fs` on stand behind `k` in the map's order.
abbrev pub Behind : Bytes → Fields → Type 0
Behind k end = Unit
Behind k (field j v fs) = (before k j ≡ true) × Behind k fs

-- Every key of `fs` stands before `k`.
abbrev pub Ahead : Fields → Bytes → Type 0
Ahead end k = Unit
Ahead (field j v fs) k = (before j k ≡ true) × Ahead fs k

abbrev pub Precedes : Fields → Fields → Type 0
Precedes out end = Unit
Precedes out (field k v fs) = Ahead out k × Precedes out fs

-- Strictly ascending keys, the order in which a `std::map` holds them.
abbrev pub IsSorted : Fields → Type 0
IsSorted end = Unit
IsSorted (field k v fs) = Behind k fs × IsSorted fs

abbrev pub concat_items : Items → Items → Items
concat_items nil ys = ys
concat_items (cons x xs) ys = cons x (concat_items xs ys)

abbrev pub concat_fields : Fields → Fields → Fields
concat_fields end gs = gs
concat_fields (field k v fs) gs = field k v (concat_fields fs gs)

pub before_asymm : (a b : Bytes) → before a b ≡ true → before b a ≡ false
before_asymm [] [] h = refl
before_asymm [] (y ∷ b) h = refl
before_asymm (x ∷ a) [] h = cc
before_asymm (x ∷ a) (y ∷ b) h = ground (arith, before_asymm a b)

pub concat_items-push_back :
    (out xs : Items) (v : Value) → concat_items (push_back out v) xs ≡ concat_items out (cons v xs)
unfolding push_back
concat_items-push_back nil xs v = refl
concat_items-push_back (cons x out) xs v = ap (cons x) (concat_items-push_back out xs v)

pub insert-Ahead :
    (out : Fields) (k : Bytes) (v : Value)
    → Ahead out k
    → insert k v out ≡ concat_fields out (field k v end)
unfolding insert
insert-Ahead end k v a = refl
insert-Ahead (field j w out) k v a =
    rw (before_asymm j k a.0) (rw (a.0) (ap (field j w) (insert-Ahead out k v a.1)))

pub concat_fields_assoc :
    (a : Fields) (k : Bytes) (v : Value) (b : Fields)
    → concat_fields (concat_fields a (field k v end)) b ≡ concat_fields a (field k v b)
concat_fields_assoc end k v b = refl
concat_fields_assoc (field j w a) k v b = ap (field j w) (concat_fields_assoc a k v b)

Ahead-concat :
    (a : Fields) (j k : Bytes) (v : Value)
    → Ahead a k
    → before j k ≡ true
    → Ahead (concat_fields a (field j v end)) k
Ahead-concat end j k v h b = (b, tt)
Ahead-concat (field i w a) j k v h b = (h.0, Ahead-concat a j k v h.1 b)

pub Precedes-insert :
    (out : Fields) (k : Bytes) (v : Value) (fs : Fields)
    → Precedes out fs
    → Behind k fs
    → Precedes (concat_fields out (field k v end)) fs
Precedes-insert out k v end p b = tt
Precedes-insert out k v (field j w fs) p b =
    (Ahead-concat out k j v p.0 b.0, Precedes-insert out k v fs p.1 b.1)

pub Precedes-end : (fs : Fields) → Precedes end fs
Precedes-end end = tt
Precedes-end (field k v fs) = (tt, Precedes-end fs)
