-- ===== src/Checks/Json.antt =====
-- The JSON theorems at concrete texts and values.
use switch_mcp.Base.{ℕ, ◌≡◌, refl, arith, [], some, Bytes, codes}
use switch_mcp.Json.Value.{Value, null, int, string, array, object, nil, cons, end, field}
use switch_mcp.Json.Write.{write}
use switch_mcp.Json.Parse.{parse, parse_value}
use switch_mcp.Json.Fuel.{Within, parse_value_ends}
use switch_mcp.Json.RoundTrip.Grammar.{IsExact}
use switch_mcp.Json.RoundTrip.Values.{parse-write}

abbrev pub no_float : Bytes → ℕ
no_float s = 0

abbrev pub no_print : ℕ → Bytes
no_print n = []

abbrev nested : Value
nested = object (
    field (codes "a") (array (cons (int 5) (cons null nil)))
      (field (codes "b") (string (codes "x\"y")) end))

nested-IsExact : IsExact nested
nested-IsExact = ((refl, tt), (omega arith, (tt, tt)), (tt, tt, tt))

parse-write_example : parse no_float (write no_print nested) ≡ some nested
parse-write_example = parse-write no_print no_float nested nested-IsExact

parse_value_ends_example : Within 3 (parse_value no_float 7 (codes "[1]"))
parse_value_ends_example = parse_value_ends no_float 7 (codes "[1]") (omega arith)
