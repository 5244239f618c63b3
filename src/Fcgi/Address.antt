-- ===== src/Fcgi/Address.antt =====
-- internal/fcgi/socket.go: which socket URLs are accepted, and how they are taken apart.
use gosupervisor.Fcgi.{unix_prefix, tcp_prefix, parse_socket_addr}
use gosupervisor.Prelude.{
  length, drop, Text, codes, has_prefix, ◌≡◌, refl, ◌↔◌, ◌⊎◌, inl, inr, true, some, [], ◌∷◌, ◌++◌,
  arith,
}

append-drop_of_has_prefix : (s p : Text) → has_prefix s p ≡ true → s ≡ p ++ drop (length p) s
unfolding has_prefix
append-drop_of_has_prefix s [] h = refl
append-drop_of_has_prefix [] (b ∷ p) h = cc
append-drop_of_has_prefix (a ∷ s) (b ∷ p) h = ground (arith, append-drop_of_has_prefix s p)

parse_cases :
    (addr network address : Text)
    → parse_socket_addr addr ≡ some (network, address)
    → (network ≡ codes "unix") × (addr ≡ unix_prefix ++ address)
      ⊎ (network ≡ codes "tcp") × (addr ≡ tcp_prefix ++ address)
unfolding parse_socket_addr
parse_cases addr network address h =
    ground
      (arith, append-drop_of_has_prefix addr unix_prefix, append-drop_of_has_prefix addr tcp_prefix)

-- A URL is read as a network and an address exactly if it is `unix://` or `tcp://` followed by the
-- address, with that network.
pub parse_socket_addr_iff :
    (addr network address : Text)
    → (parse_socket_addr addr ≡ some (network, address)) ↔ (
        (network ≡ codes "unix") × (addr ≡ unix_prefix ++ address)
        ⊎ (network ≡ codes "tcp") × (addr ≡ tcp_prefix ++ address))
unfolding parse_socket_addr has_prefix
parse_socket_addr_iff addr network address =
    (parse_cases addr network address, elim [ inl (n, a) ↦ rw (n, a) | inr (n, a) ↦ rw (n, a) ])
