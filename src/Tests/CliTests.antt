-- ===== src/Tests/CliTests.antt =====
-- Tests of the command line client.
use plant_minder.Base.{
  ℕ, ◌≡◌, ◌≢◌, refl, List, [], ◌∷◌, ◌++◌, true, false, Option, none, some, Result, ok, err, nat_eq,
  list_eq, ◌==◌, if◌then◌else◌, arith, All,
}
use plant_minder.Text.{Text}
use plant_minder.Net.{Ipv6Addr, Ipv6Net, segment0}
use plant_minder.Broker.Cli.{
  Output, wrote, parse_prefix_output, get_omr_prefix_from_cli, get_omr_ip_addr_from_cli,
  get_children_from_cli, client,
}
use plant_minder.Broker.Cli.Children.{child_lines, IsPrintable, get_children-child_lines}
use plant_minder.Tests.{mesh}

-- The text of the address 7 of the mesh.
abbrev text_7 : Text
text_7 = b'f' ∷ b'd' ∷ b'0' ∷ b'0' ∷ b':' ∷ b':' ∷ b'7' ∷ []

abbrev show_any : Ipv6Addr → Text
show_any a = text_7

abbrev parse_7 : Text → Option Ipv6Addr
parse_7 t = if t == text_7 then some (mesh 7) else none

abbrev parse_net_7 : Text → Option Ipv6Net
parse_net_7 t = if t == text_7 then some (record { addr = mesh 7; prefix_len = 64 }) else none

children-IsPrintable : All (IsPrintable show_any parse_7) ((0xfc01, mesh 7) ∷ [])
children-IsPrintable = ground arith

get_children_example :
    get_children_from_cli parse_7 (wrote (child_lines show_any ((0xfc01, mesh 7) ∷ [])))
    ≡ ok ((0xfc01, mesh 7) ∷ [])
get_children_example =
    get_children-child_lines show_any parse_7 ((0xfc01, mesh 7) ∷ []) children-IsPrintable

-- What `ot-ctl prefix` and `ot-ctl ipaddr` write.
abbrev prefix_output : Output
prefix_output = wrote (text_7 ++ b' ' ∷ b'p' ∷ b'\n' ∷ b'D' ∷ b'o' ∷ b'n' ∷ b'e' ∷ [])

abbrev ipaddr_output : Output
ipaddr_output = wrote (b'x' ∷ b'\n' ∷ (text_7 ++ 13 ∷ b'\n' ∷ b'D' ∷ b'o' ∷ b'n' ∷ b'e' ∷ []))

prefix_read :
    get_omr_prefix_from_cli parse_net_7 prefix_output
    ≡ ok (record { addr = mesh 7; prefix_len = 64 })
unfolding get_omr_prefix_from_cli plant_minder.Base.from_utf8 parse_prefix_output
    plant_minder.Text.split plant_minder.Text.trim_end_matches plant_minder.Text.trim_rounds
    plant_minder.Text.strip_any plant_minder.Text.strip_prefix
prefix_read = refl

address_read :
    get_omr_ip_addr_from_cli parse_7 parse_net_7 prefix_output ipaddr_output ≡ ok (mesh 7)
unfolding get_omr_ip_addr_from_cli get_omr_prefix_from_cli plant_minder.Base.from_utf8
    parse_prefix_output plant_minder.Text.split plant_minder.Text.trim_end_matches
    plant_minder.Text.trim_rounds plant_minder.Text.strip_any plant_minder.Text.strip_prefix
    plant_minder.Broker.Cli.get_ip_addrs_from_cli plant_minder.Text.trim segment0
address_read = refl
