-- ===== src/Tests/NetlinkTests.antt =====
-- A link message with a name, an operational state and a VLAN's lower link.
use joy_pi_health.Prelude.{ℕ, ◌≡◌, refl, none, some, List, [], ◌∷◌, ◌++◌, arith}
use joy_pi_health.Result.{ok}
use joy_pi_health.Text.{Text, bytes}
use joy_pi_health.Observe.Network.{Link}
use joy_pi_health.Platform.Netlink.{
  NetlinkAttribute, netlink_string, parse_attributes, attributes_from, decode_link,
  decode_link_kind, put_attributes, attribute_int32, with_identity,
}
use joy_pi_health.Platform.Netlink.RoundTrip.{print_attributes, parse_attributes-print_attributes}

abbrev attribute : ℕ → Text → NetlinkAttribute
attribute kind content = record { kind = kind; content = content }

abbrev attributes : List NetlinkAttribute
attributes =
    attribute 3 (bytes "a.1" ++ (0 ∷ []))
    ∷ attribute 5 (2 ∷ 0 ∷ 0 ∷ 0 ∷ [])
    ∷ attribute 16 (6 ∷ [])
    ∷ []

abbrev header : Text
header = 0 ∷ 0 ∷ 1 ∷ 0 ∷ 3 ∷ 0 ∷ 0 ∷ 0 ∷ 0 ∷ 0 ∷ 0 ∷ 0 ∷ 0 ∷ 0 ∷ 0 ∷ 0 ∷ []

abbrev decoded : Link
decoded = record {
  index = 3;
  name = bytes "a.1";
  hardware_type = 1;
  flags = 0;
  kind = [];
  link_index = some 2;
  master_index = none;
  oper_state = some 6;
  rx_bytes = none;
  tx_bytes = none;
  device_path = [];
}

link_decoded : decode_link (header ++ print_attributes attributes) ≡ ok decoded
unfolding decode_link parse_attributes attributes_from put_attributes attribute_int32 netlink_string
    with_identity decode_link_kind
link_decoded = refl

parse_attributes-print_attributes_example :
    parse_attributes (print_attributes attributes) ≡ ok attributes
parse_attributes-print_attributes_example =
    parse_attributes-print_attributes attributes
      ((omega arith, omega arith), ((omega arith, omega arith), ((omega arith, omega arith), tt)))
