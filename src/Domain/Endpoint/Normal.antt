-- ===== src/Domain/Endpoint/Normal.antt =====
-- Normal addresses, and the endpoint that follows a path.
use algod_loadb_mesh.Base.{◌≡◌, refl, ap, Option, none, some, Bytes}
use algod_loadb_mesh.Domain.Endpoint.{
  Net, shorten, canonical, normal_host, normal_parts, normalize_addr,
}

-- What `net` documents: an address that is joined splits again, an IP that is printed is parsed
-- again, and a second `To4` or a second trip through text changes nothing of a canonical IP.
pub record IsNet (n : Net) : Type 0 where
  pub split_join : (h p : Bytes) → n.split_host_port (n.join_host_port h p) ≡ some (h, p)
  pub parse_string :
      (ip : Bytes)
      → (q : Bytes) × (n.parse_ip (n.ip_string ip) ≡ some q)
        × (n.ip_string (shorten n q (n.to4 q)) ≡ n.ip_string ip)

module _ (n : Net) (w : IsNet n) where
  again :
      (addr host port : Bytes) (o : Option Bytes)
      → n.split_host_port addr ≡ some (host, port)
      → n.parse_ip host ≡ o
      → normalize_addr n (normal_host n addr port o) ≡ normal_host n addr port o
  unfolding normalize_addr
  again addr host port none e h = rw e (rw h refl)
  again addr host port (some ip) e h =
      let (q, parsed, same) = w.parse_string (shorten n ip (n.to4 ip)) in
      rw (w.split_join (canonical n ip) port) (rw parsed (ap (λ s. n.join_host_port s port) same))

  as_it_came : (addr : Bytes) → n.split_host_port addr ≡ none → normalize_addr n addr ≡ addr
  unfolding normalize_addr
  as_it_came addr e = rw e refl

  from_parts :
      (addr : Bytes) (o : Option (Bytes × Bytes))
      → n.split_host_port addr ≡ o
      → normalize_addr n (normal_parts n addr o) ≡ normal_parts n addr o
  from_parts addr none e = as_it_came addr e
  from_parts addr (some (host, port)) e = again addr host port (n.parse_ip host) e refl

  -- A normalised address is its own normal form.
  pub normalize_addr_idem :
      (addr : Bytes) → normalize_addr n (normalize_addr n addr) ≡ normalize_addr n addr
  unfolding normalize_addr
  normalize_addr_idem addr = from_parts addr (n.split_host_port addr) refl
