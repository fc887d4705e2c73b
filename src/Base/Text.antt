-- ===== src/Base/Text.antt =====
-- Go strings as lists of bytes, with what the code uses of the `strings` and `strconv` packages.
use Prim.Native.Nat.{ℕ, ◌+◌, ◌*◌, ◌-◌}
use Prim.Native.Char.{code}
use Prim.Native.String.{String}
use mathlib.Core.Path.{◌≡◌, refl}
use mathlib.Core.Bool.{Bool, true, false, ◌&&◌, ◌||◌}
use mathlib.Core.List.{List, [], ◌∷◌, ◌++◌}
use mathlib.Core.Option.{Option, none, some}
use mathlib.Core.Logic.{◌↔◌}
use native.Mathlib.Omega.{arith}
use algod_loadb_mesh.Base.Tests.{ltb, leb, ◌==◌, if◌then◌else◌}
use algod_loadb_mesh.Base.Word.{word}

abbrev pub Bytes : Type 0
Bytes = List ℕ

-- The code points of a text: its bytes, since every literal of the model is ASCII.
abbrev pub codes : String → Bytes
codes String.[] = []
codes (String.◌∷◌ c s) = code c ∷ codes s

-- `a == b` on strings.
unfoldable pub eqb : Bytes → Bytes → Bool
eqb [] [] = true
eqb (x ∷ xs) (y ∷ ys) = (x == y) && eqb xs ys
eqb _ _ = false

pub eqb_refl : (s : Bytes) → eqb s s ≡ true
unfolding eqb
eqb_refl [] = refl
eqb_refl (x ∷ s) = ground (arith, eqb_refl s)

pub eq_of_eqb : (s t : Bytes) → eqb s t ≡ true → s ≡ t
unfolding eqb
eq_of_eqb [] [] h = refl
eq_of_eqb (x ∷ s) (y ∷ t) h = ground (arith, eq_of_eqb s t)
eq_of_eqb [] (y ∷ t) h = cc
eq_of_eqb (x ∷ s) [] h = cc

pub eqb_iff : (s t : Bytes) → (eqb s t ≡ true) ↔ (s ≡ t)
eqb_iff s t = (eq_of_eqb s t, λ e. rw e (eqb_refl t))

-- `a < b` on strings, bytewise.
unfoldable pub ltb_bytes : Bytes → Bytes → Bool
ltb_bytes [] [] = false
ltb_bytes [] (y ∷ ys) = true
ltb_bytes (x ∷ xs) [] = false
ltb_bytes (x ∷ xs) (y ∷ ys) = ltb x y || ((x == y) && ltb_bytes xs ys)

-- `strings.ToUpper` on ASCII.
unfoldable pub to_upper : Bytes → Bytes
to_upper [] = []
to_upper (c ∷ cs) = (if leb b'a' c && leb c b'z' then c - 32 else c) ∷ to_upper cs

-- `strings.TrimPrefix(s, "/")` and `strings.TrimSuffix(s, "/")`, at a separator of one byte.
unfoldable pub trim_prefix : ℕ → Bytes → Bytes
trim_prefix sep [] = []
trim_prefix sep (c ∷ cs) = if c == sep then cs else c ∷ cs

unfoldable pub trim_suffix : ℕ → Bytes → Bytes
trim_suffix sep [] = []
trim_suffix sep (c ∷ []) = if c == sep then [] else c ∷ []
trim_suffix sep (c ∷ d ∷ cs) = c ∷ trim_suffix sep (d ∷ cs)

abbrev cons_head : ℕ → List Bytes → List Bytes
cons_head c [] = (c ∷ []) ∷ []
cons_head c (s ∷ ss) = (c ∷ s) ∷ ss

-- `strings.Split` at a separator of one byte: never the empty list.
unfoldable pub split : ℕ → Bytes → List Bytes
split sep [] = [] ∷ []
split sep (c ∷ cs) = if c == sep then [] ∷ split sep cs else cons_head c (split sep cs)

-- `strings.Join` with a separator of one byte.
unfoldable pub join : ℕ → List Bytes → Bytes
join sep [] = []
join sep (s ∷ []) = s
join sep (s ∷ t ∷ ss) = s ++ (sep ∷ join sep (t ∷ ss))

-- `strings.Cut` at a separator of one byte: before it, after it, and whether it was found.
unfoldable pub cut : ℕ → Bytes → Bytes × Bytes × Bool
cut sep [] = ([], [], false)
cut sep (c ∷ cs) =
    let (before, after, found) = cut sep cs in
    if c == sep then ([], cs, true) else (c ∷ before, after, found)

is_space : ℕ → Bool
is_space c = (c == 32) || (leb 9 c && leb c 13)

trim_left : Bytes → Bytes
trim_left [] = []
trim_left (c ∷ cs) = if is_space c then trim_left cs else c ∷ cs

trim_right : Bytes → Bytes
trim_right [] = []
trim_right (c ∷ cs) = drop_if_blank c (trim_right cs)
  where
    drop_if_blank : ℕ → Bytes → Bytes
    drop_if_blank c [] = if is_space c then [] else c ∷ []
    drop_if_blank c (d ∷ ds) = c ∷ d ∷ ds

-- `strings.TrimSpace` on ASCII.
unfoldable pub trim_space : Bytes → Bytes
unfolding is_space trim_left trim_right
trim_space s = trim_left (trim_right s)

abbrev is_digit : ℕ → Bool
is_digit c = leb b'0' c && leb c b'9'

parse_digits : ℕ → Bytes → Option ℕ
parse_digits n [] = some n
parse_digits n (c ∷ cs) =
    let m = n * 10 + (c - b'0') in
    let rest = parse_digits m cs in if is_digit c then (if ltb m word then rest else none) else none

-- `strconv.ParseUint(s, 10, 64)`: none for an empty text, another byte than a digit, or a value
-- that needs more than 64 bits.
unfoldable pub parse_uint : Bytes → Option ℕ
unfolding parse_digits
parse_uint [] = none
parse_uint (c ∷ cs) = parse_digits 0 (c ∷ cs)
