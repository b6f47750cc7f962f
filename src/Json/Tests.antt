-- ===== src/Json/Tests.antt =====
-- Runs of the JSON printer and parser.
use switch_mcp.Base.{ℕ, ◌≡◌, refl, some, codes, Bytes, [], true}
use switch_mcp.Json.Value.{
  Value, null, boolean, int, string, array, object, nil, cons, end, field, insert,
}
use switch_mcp.Json.Parse.{parse}
use switch_mcp.Json.Parse
use switch_mcp.Json.Number.{strtoll, read_digits}

abbrev no_float : Bytes → ℕ
no_float s = 0

abbrev no_print : ℕ → Bytes
no_print n = []

abbrev sample : Value
sample = object (
    field (codes "a") (array (cons (int 5) (cons null nil))) (field (codes "b") (boolean true) end))

parse-sample : parse no_float (codes " {\"b\": true , \"a\":[5,null]} x") ≡ some sample
unfolding parse Parse.parse_value Parse.scan_number Parse.scan Parse.number_of insert Parse.skip_ws
    Parse.parse_string Parse.string_loop Parse.parse_number switch_mcp.Json.Value.push_back strtoll
    read_digits
parse-sample = refl
