-- ===== src/Broker/Cli.antt =====
-- `OtCliClient` of pmind-broker/src/client/cli.rs: what the answers of `ot-ctl` mean.
pub mod Children
pub mod Address
use plant_minder.Base.{
  ℕ, List, [], ◌∷◌, ◌++◌, Bool, true, false, Option, none, some, if◌then◌else◌, ◌==◌, nat_eq,
  Result, ok, err, ◌>>=◌, from_utf8,
}
use plant_minder.Text.{
  Text, trim_start_matches, trim_end_matches, trim, split, split_at_find, from_str_radix_16,
}
use plant_minder.Net.{Ipv6Addr, Ipv6Net, segment0}
use plant_minder.Broker.Types.{
  Rloc, OtClientError, io, str_parse, addr_parse, ot_client_err, OtClient,
}

-- `Command::new("ot-ctl").arg(…).output()`: it cannot be run, it fails, or it writes some bytes.
pub data Output : Type 0 where
  not_run failed : Output
  wrote : List ℕ → Output

abbrev pub done : Text
done = b'D' ∷ b'o' ∷ b'n' ∷ b'e' ∷ []

abbrev pub colon_space : Text
colon_space = b':' ∷ b' ' ∷ []

abbrev pub or_zero : Option ℕ → ℕ
or_zero none = 0
or_zero (some n) = n

unfoldable pub collect {ℓ} : {A B : Type ℓ} → (A → Option B) → List A → List B
collect f [] = []
collect f (x ∷ xs) = let rest = collect f xs in elim (f x) [ none ↦ rest | some y ↦ y ∷ rest ]

abbrev pub utf8_or_error : Option Text → Result Text OtClientError
utf8_or_error none = err str_parse
utf8_or_error (some s) = ok s

-- The texts of addresses and networks are read by `parse_ip` and `parse_net`, their `FromStr`.
module _ (parse_ip : Text → Option Ipv6Addr) where
  abbrev pub with_rloc : Rloc → Option Ipv6Addr → Option (Rloc × Ipv6Addr)
  with_rloc r none = none
  with_rloc r (some a) = some (r, a)

  abbrev pub read_pair : Option (Text × Text) → Option (Rloc × Ipv6Addr)
  read_pair none = none
  read_pair (some (rloc, rem)) =
      with_rloc (or_zero (from_str_radix_16 rloc))
        (parse_ip (trim (trim_start_matches colon_space rem)))

  unfoldable pub read_line : Text → Option (Rloc × Ipv6Addr)
  read_line l = read_pair (split_at_find colon_space l)

  unfoldable pub parse_childip_output : Text → List (Rloc × Ipv6Addr)
  unfolding read_line collect
  parse_childip_output res = collect read_line (split b'\n' (trim_end_matches done res))

  unfoldable pub get_children_from_cli : Output → Result (List (Rloc × Ipv6Addr)) OtClientError
  get_children_from_cli not_run = err io
  get_children_from_cli failed = err io
  get_children_from_cli (wrote bytes) = do
    s ← utf8_or_error (from_utf8 bytes)
    ok (parse_childip_output s)

  unfoldable pub get_ip_addrs_from_cli : Output → Result (List Ipv6Addr) OtClientError
  unfolding collect
  get_ip_addrs_from_cli not_run = err io
  get_ip_addrs_from_cli failed = err (ot_client_err "Failed CLI Command")
  get_ip_addrs_from_cli (wrote bytes) = do
    s ← utf8_or_error (from_utf8 bytes)
    ok (collect (λ i. parse_ip (trim i)) (split b'\n' (trim_end_matches done s)))

module _ (parse_net : Text → Option Ipv6Net) where
  abbrev pub net_or_error : Option Ipv6Net → Result Ipv6Net OtClientError
  net_or_error none = err addr_parse
  net_or_error (some n) = ok n

  abbrev pub first_piece : List Text → Result Ipv6Net OtClientError
  first_piece [] = err (ot_client_err "No prefix is currently set")
  first_piece (e ∷ _) = net_or_error (parse_net e)

  unfoldable pub parse_prefix_output : Text → Result Ipv6Net OtClientError
  parse_prefix_output res = first_piece (split b' ' (trim_end_matches done res))

  unfoldable pub get_omr_prefix_from_cli : Output → Result Ipv6Net OtClientError
  get_omr_prefix_from_cli not_run = err io
  get_omr_prefix_from_cli failed = err (ot_client_err "Failed CLI Command")
  get_omr_prefix_from_cli (wrote bytes) = do
    s ← utf8_or_error (from_utf8 bytes)
    parse_prefix_output s

unfoldable pub find_scope : ℕ → List Ipv6Addr → Option Ipv6Addr
find_scope s [] = none
find_scope s (a ∷ rest) = if segment0 a == s then some a else find_scope s rest

abbrev pub matching : Option Ipv6Addr → Result Ipv6Addr OtClientError
matching none = err (ot_client_err "No matching prefix found")
matching (some a) = ok a

module _ (parse_ip : Text → Option Ipv6Addr) (parse_net : Text → Option Ipv6Net) where
  unfoldable pub get_omr_ip_addr_from_cli : Output → Output → Result Ipv6Addr OtClientError
  unfolding find_scope
  get_omr_ip_addr_from_cli prefix_out ip_out = do
    net ← get_omr_prefix_from_cli parse_net prefix_out
    ips ← get_ip_addrs_from_cli parse_ip ip_out
    matching (find_scope (segment0 net.addr) ips)

  -- The three questions of the trait `OtClient`, by what `ot-ctl` writes to `childip`, `prefix`
  -- and `ipaddr`.
  unfoldable pub client : Output → Output → Output → OtClient
  client childip prefix ipaddr = record {
    get_child_ips = get_children_from_cli parse_ip childip;
    get_omr_prefix = get_omr_prefix_from_cli parse_net prefix;
    get_omr_ip = get_omr_ip_addr_from_cli prefix ipaddr;
  }
