-- ===== src/Broker/Cli/Address.antt =====
-- The border router's address as the command line client finds it.
use Prim.Native.String.{String}
use plant_minder.Base.{
  ℕ, ◌≡◌, ◌≢◌, refl, inl, inr, List, [], ◌∷◌, Option, some, ok, err, arith, nat_eq, nat_beq_iff,
  Option-cases, Result-cases,
}
use plant_minder.Text.{Text, split}
use plant_minder.Net.{Ipv6Addr, Ipv6Net, segment0}
use plant_minder.Broker.Types.{ot_client_err}
use plant_minder.Broker.Monitor.{OtMonitor, monitor_network_status}
use plant_minder.Broker.Monitor.Network.{monitor_network_status_lem}
use plant_minder.Broker.Cli.{
  Output, parse_prefix_output, first_piece, get_omr_prefix_from_cli, get_ip_addrs_from_cli,
  find_scope, get_omr_ip_addr_from_cli, client,
}

split-ne-nil : (sep : ℕ) (s : Text) → split sep s ≢ []
unfolding split
split-ne-nil sep [] e = cc
split-ne-nil sep (c ∷ s) e = ground (arith, e)

module _ (parse_net : Text → Option Ipv6Net) where
  first_piece_read :
      (l : List Text) (m : String) → l ≢ [] → first_piece parse_net l ≢ err (ot_client_err m)
  first_piece_read [] m h e = h refl
  first_piece_read (x ∷ l) m h e = ground (arith, e)

  -- Whatever `ot-ctl prefix` writes, the parser never says that no prefix is set.
  pub prefix_never_unset :
      (res : Text) (m : String) → parse_prefix_output parse_net res ≢ err (ot_client_err m)
  unfolding parse_prefix_output
  prefix_never_unset res m = first_piece_read _ m (split-ne-nil b' ' _)

find_scope_sound :
    (s : ℕ) (l : List Ipv6Addr) (a : Ipv6Addr) → find_scope s l ≡ some a → segment0 a ≡ s
unfolding find_scope
find_scope_sound s [] a h = cc
find_scope_sound s (x ∷ l) a h = ground (arith, nat_beq_iff (segment0 x) s, find_scope_sound s l a)

module _ (parse_ip : Text → Option Ipv6Addr) (parse_net : Text → Option Ipv6Net) where
  in_scope :
      (prefix ipaddr : Output) (net : Ipv6Net) (a : Ipv6Addr)
      → get_omr_prefix_from_cli parse_net prefix ≡ ok net
      → get_omr_ip_addr_from_cli parse_ip parse_net prefix ipaddr ≡ ok a
      → segment0 a ≡ segment0 net.addr
  unfolding get_omr_ip_addr_from_cli
  in_scope prefix ipaddr net a p h = elim (Result-cases (get_ip_addrs_from_cli parse_ip ipaddr)) [
    | inr (e, q) ↦ ground (arith, p, q, h)
    | inl (ips, q) ↦ elim (Option-cases (find_scope (segment0 net.addr) ips)) [
      | inl r ↦ ground (arith, p, q, r, h)
      | inr (x, r) ↦ ground (arith, p, q, r, h, find_scope_sound (segment0 net.addr) ips x r)
    ]
  ]

  -- With the command line client, a network check for which `ot-ctl` prints a prefix and an address
  -- that it finds succeeds and leaves the border router's address in the scope of that prefix.
  pub network_check_by_cli :
      (childip prefix ipaddr : Output) (m : OtMonitor) (net : Ipv6Net) (a : Ipv6Addr)
      → get_omr_prefix_from_cli parse_net prefix ≡ ok net
      → get_omr_ip_addr_from_cli parse_ip parse_net prefix ipaddr ≡ ok a
      → let c = client parse_ip parse_net childip prefix ipaddr in
        ((monitor_network_status c m).0 ≡ ok tt)
        × (segment0 (monitor_network_status c m).1.addr ≡ segment0 net.addr)
  unfolding client
  network_check_by_cli childip prefix ipaddr m net a p h =
      let r =
        monitor_network_status_lem (client parse_ip parse_net childip prefix ipaddr) m net a p h
          (in_scope prefix ipaddr net a p h) in
      (r.0, r.1)
