-- ===== src/Domain/Query.antt =====
-- The query string of a request: `queryValues` and `parseRound` of internal/domain/classify.go, over
-- `url.ParseQuery` of Go's library, whose errors the source drops pair by pair.
use algod_loadb_mesh.Base.{
  ℕ, ◌+◌, ◌-◌, ◌*◌, ◌&&◌, Option, none, some, List, [], ◌∷◌, leb, ◌==◌, if◌then◌else◌, Bytes, codes,
  eqb, split, cut, parse_uint, any,
}

hex_value : ℕ → Option ℕ
hex_value c =
    if leb b'0' c && leb c b'9'
    then some (c - b'0')
    else if leb b'a' c && leb c b'f'
    then some (c - b'a' + 10)
    else if leb b'A' c && leb c b'F'
    then some (c - b'A' + 10)
    else none

hex_byte : Option ℕ → Option ℕ → Option ℕ
hex_byte (some a) (some b) = some (a * 16 + b)
hex_byte _ _ = none

cons_some : Option ℕ → Option Bytes → Option Bytes
cons_some (some c) (some s) = some (c ∷ s)
cons_some _ _ = none

-- `url.QueryUnescape`: none at a `%` that no two hexadecimal digits follow.
unfoldable unescape : Bytes → Option Bytes
unfolding hex_value hex_byte cons_some
unescape [] = some []
unescape (c ∷ []) = if c == b'%' then none else some ((if c == b'+' then 32 else c) ∷ [])
unescape (c ∷ d ∷ []) =
    let rest = unescape (d ∷ []) in
    if c == b'%' then none else cons_some (some (if c == b'+' then 32 else c)) rest
unescape (c ∷ d ∷ e ∷ cs) =
    let escaped = cons_some (hex_byte (hex_value d) (hex_value e)) (unescape cs) in
    let rest = cons_some (some (if c == b'+' then 32 else c)) (unescape (d ∷ e ∷ cs)) in
    if c == b'%' then escaped else rest

abbrev both : Option Bytes → Option Bytes → Option (Bytes × Bytes)
both (some k) (some v) = some (k, v)
both none _ = none
both (some k) none = none

-- One pair of the query; none for one that is dropped.
query_pair : Bytes → Option (Bytes × Bytes)
query_pair [] = none
query_pair (c ∷ cs) =
    let (key, value, found) = cut b'=' (c ∷ cs) in
    if any (λ d. d == b';') (c ∷ cs) then none else both (unescape key) (unescape value)

add_pair : Option (Bytes × Bytes) → List (Bytes × Bytes) → List (Bytes × Bytes)
add_pair none m = m
add_pair (some p) m = p ∷ m

pairs_of : List Bytes → List (Bytes × Bytes)
pairs_of [] = []
pairs_of (s ∷ ss) = add_pair (query_pair s) (pairs_of ss)

-- `queryValues`: the pairs in the order of the query.
unfoldable pub query_values : Bytes → List (Bytes × Bytes)
unfolding pairs_of add_pair query_pair unescape
query_values raw = pairs_of (split b'&' raw)

-- `Values.Get`: the first value, or the empty text.
unfoldable pub query_get : Bytes → List (Bytes × Bytes) → Bytes
query_get k [] = []
query_get k ((j, v) ∷ m) = if eqb j k then v else query_get k m

-- `parseRound`, and the `round` parameter of the query.
unfoldable pub round_param : List (Bytes × Bytes) → Option ℕ
round_param q = parse_uint (query_get (codes "round") q)
