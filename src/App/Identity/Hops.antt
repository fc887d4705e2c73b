-- ===== src/App/Identity/Hops.antt =====
-- A client cannot choose the address that it is known by.
use algod_loadb_mesh.Base.{
  ◌≡◌, refl, sym, ap, ◌∙◌, true, false, Option, none, some, List, [], ◌∷◌, ◌++◌, if◌then◌else◌,
  Bytes, trim_space, All,
}
use algod_loadb_mesh.App.Identity.{
  NetIp, TableOptions, reversed, parse_addr, is_trusted, next_hop, hop_or, walk_hops, key_of_addr,
  client_of, client_key,
}
use algod_loadb_mesh.Domain.Endpoint.{Net}

module _ (n : Net) (ip : NetIp) (o : TableOptions) where
  reversed-append :
      {A : Type 0} (acc xs ys : List A) → reversed acc (xs ++ ys) ≡ reversed (reversed acc xs) ys
  reversed-append acc [] ys = refl
  reversed-append acc (x ∷ xs) ys = reversed-append (x ∷ acc) xs ys

  reversed-tail :
      {A : Type 0} (acc more xs : List A) → reversed (acc ++ more) xs ≡ reversed acc xs ++ more
  reversed-tail acc more [] = refl
  reversed-tail acc more (x ∷ xs) = reversed-tail (x ∷ acc) more xs

  walk-stops :
      (addr h a : Bytes) (front back : List Bytes)
      → parse_addr n ip o (trim_space h) ≡ some a
      → is_trusted n ip o a ≡ false
      → walk_hops n ip o addr (front ++ (h ∷ back)) ≡ walk_hops n ip o addr (front ++ (h ∷ []))
  unfolding walk_hops
  walk-stops addr h a [] back p u = rw (p, u) refl
  walk-stops addr h a (x ∷ front) back p u =
      ap (next_hop n ip o addr (parse_addr n ip o (trim_space x)))
        (walk-stops (hop_or n ip o addr (parse_addr n ip o (trim_space x))) h a front back p u)

  reversed-around :
      (forged added : List Bytes) (h : Bytes)
      → reversed [] (forged ++ (h ∷ added)) ≡ reversed [] added ++ (h ∷ reversed [] forged)
  reversed-around forged added h =
      reversed-append [] forged (h ∷ added) ∙ reversed-tail [] (h ∷ reversed [] forged) added

  -- The key does not depend on the entries of the header ahead of one that is no trusted proxy's.
  pub client_key_own :
      (remote : Bytes) (forged forged' added : List Bytes) (h a : Bytes)
      → parse_addr n ip o (trim_space h) ≡ some a
      → is_trusted n ip o a ≡ false
      → client_key n ip o (record { remote_addr = remote; hops = forged ++ (h ∷ added) })
        ≡ client_key n ip o (record { remote_addr = remote; hops = forged' ++ (h ∷ added) })
  unfolding client_key
  client_key_own remote forged forged' added h a p u = of_remote (parse_addr n ip o remote)
    where
      walked :
          (addr : Bytes) (front : List Bytes)
          → walk_hops n ip o addr (reversed [] (front ++ (h ∷ added)))
            ≡ walk_hops n ip o addr (reversed [] added ++ (h ∷ []))
      walked addr front =
          ap (walk_hops n ip o addr) (reversed-around front added h)
          ∙ walk-stops addr h a (reversed [] added) (reversed [] front) p u

      of_remote :
          (r : Option Bytes)
          → client_of n ip o (record { remote_addr = remote; hops = forged ++ (h ∷ added) }) r
            ≡ client_of n ip o (record { remote_addr = remote; hops = forged' ++ (h ∷ added) }) r
      of_remote none = refl
      of_remote (some addr) =
          ap (λ w. key_of_addr n ip o (if is_trusted n ip o addr then w else addr))
            (walked addr forged ∙ sym (walked addr forged'))

  -- An entry that a trusted proxy wrote of another one.
  abbrev pub IsProxy : Bytes → Type 0
  IsProxy x =
      (b : Bytes) × (parse_addr n ip o (trim_space x) ≡ some b) × (is_trusted n ip o b ≡ true)

  -- The address that a request comes from: that of the connection, or, when this is a trusted proxy,
  -- the last entry of the header that is none, with anything before it.
  pub data IsOrigin (remote : Bytes) (hops : List Bytes) (a : Bytes) : Type 0 where
    direct :
        parse_addr n ip o remote ≡ some a → is_trusted n ip o a ≡ false → IsOrigin remote hops a
    behind_proxies :
        (b h : Bytes) (front added : List Bytes)
        → parse_addr n ip o remote ≡ some b
        → is_trusted n ip o b ≡ true
        → hops ≡ front ++ (h ∷ added)
        → parse_addr n ip o (trim_space h) ≡ some a
        → is_trusted n ip o a ≡ false
        → All IsProxy added
        → IsOrigin remote hops a
