-- ===== src/Platform/Netlink.antt =====
-- internal/platform/netlink.go on a machine of little-endian words. A message is a list of bytes, and the
-- device path of a link is found elsewhere.
pub mod RoundTrip
use joy_pi_health.Prelude.{
  ℕ, zero, suc, ◌+◌, ◌-◌, ◌*◌, ◌/◌, ◌%◌, ◌^◌, Bool, true, false, not, ◌||◌, Option, none, some,
  List, [], ◌∷◌, ◌++◌, ltb, leb, ◌==◌, if◌then◌else◌, length, take, drop,
}
use joy_pi_health.Result.{Result, ok, err, ◌>>=◌}
use joy_pi_health.Text.{Text, bytes, is_empty}
use joy_pi_health.Errors.{Error, plain}
use joy_pi_health.Observe.Network.{Link}

abbrev if_info_message_size : ℕ
if_info_message_size = 16

abbrev ifla_if_name : ℕ
ifla_if_name = 3

abbrev ifla_link : ℕ
ifla_link = 5

abbrev ifla_master : ℕ
ifla_master = 10

abbrev ifla_oper_state : ℕ
ifla_oper_state = 16

abbrev ifla_link_info : ℕ
ifla_link_info = 18

abbrev ifla_stats64 : ℕ
ifla_stats64 = 23

abbrev ifla_info_kind : ℕ
ifla_info_kind = 1

pub record NetlinkAttribute : Type 0 where
  pub kind : ℕ
  pub content : Text

-- A number of several bytes, the lowest first.
abbrev little_endian : Text → ℕ
little_endian [] = 0
little_endian (b ∷ t) = b + 0x100 * little_endian t

-- `(length + 3) &^ 3`.
abbrev pub aligned : ℕ → ℕ
aligned n = (n + 3) / 4 * 4

-- `parseAttributes`, with the number of bytes to pass before the next attribute.
unfoldable pub attributes_from : ℕ → Text → Result Error (List NetlinkAttribute)
attributes_from k [] = ok []
attributes_from (suc k) (b ∷ t) = attributes_from k t
attributes_from zero (a ∷ []) = err (plain (bytes "truncated netlink attribute"))
attributes_from zero (a ∷ b ∷ []) = err (plain (bytes "truncated netlink attribute"))
attributes_from zero (a ∷ b ∷ c ∷ []) = err (plain (bytes "truncated netlink attribute"))
attributes_from zero (a ∷ b ∷ c ∷ d ∷ t) =
    let size = a + 0x100 * b in
    let others = attributes_from (aligned size - 4) t in
    if ltb size 4 || ltb (4 + length t) size
    then err (plain (bytes "invalid netlink attribute length"))
    else if ltb (4 + length t) (aligned size)
    then err (plain (bytes "truncated netlink attribute padding"))
    else others >>= λ attributes.
        ok (record { kind = (c + 0x100 * d) % 0x4000; content = take (size - 4) t } ∷ attributes)

unfoldable pub parse_attributes : Text → Result Error (List NetlinkAttribute)
unfolding attributes_from
parse_attributes t = attributes_from 0 t

-- `netlinkString`: without one zero byte at its end.
unfoldable pub netlink_string : Text → Text
netlink_string [] = []
netlink_string (b ∷ []) = if b == 0 then [] else b ∷ []
netlink_string (b ∷ c ∷ t) = b ∷ netlink_string (c ∷ t)

abbrev first_kind : List NetlinkAttribute → Text
first_kind [] = []
first_kind (a ∷ others) =
    if a.kind == ifla_info_kind then netlink_string a.content else first_kind others

unfoldable pub decode_link_kind : Text → Result Error Text
unfolding parse_attributes netlink_string
decode_link_kind t = parse_attributes t >>= λ attributes. ok (first_kind attributes)

-- `attributeInt32`: the pattern of its bits.
unfoldable pub attribute_int32 : Text → Result Error ℕ
attribute_int32 t =
    if length t == 4
    then ok (little_endian t)
    else err (plain (bytes "invalid link index attribute"))

-- One attribute of a link; another kind is passed over.
unfoldable pub put_attribute : NetlinkAttribute → Link → Result Error Link
unfolding decode_link_kind attribute_int32 netlink_string
put_attribute a l =
    if a.kind == ifla_if_name
    then ok (record l { name = netlink_string a.content })
    else if a.kind == ifla_link
    then (attribute_int32 a.content >>= λ v. ok (record l { link_index = some v }))
    else if a.kind == ifla_master
    then (attribute_int32 a.content >>= λ v. ok (record l { master_index = some v }))
    else if a.kind == ifla_oper_state
    then (if length a.content == 1
        then ok (record l { oper_state = some (little_endian a.content) })
        else err (plain (bytes "invalid operational state attribute")))
    else if a.kind == ifla_link_info
    then (decode_link_kind a.content >>= λ v. ok (record l { kind = v }))
    else if a.kind == ifla_stats64
    then (if ltb (length a.content) 32
        then err (plain (bytes "truncated 64-bit link statistics"))
        else ok (record l {
          rx_bytes = some (little_endian (take 8 (drop 16 a.content)));
          tx_bytes = some (little_endian (take 8 (drop 24 a.content)));
        }))
    else ok l

unfoldable pub put_attributes : List NetlinkAttribute → Link → Result Error Link
unfolding put_attribute
put_attributes [] l = ok l
put_attributes (a ∷ others) l = put_attribute a l >>= λ k. put_attributes others k

abbrev header_link : Text → Link
header_link t = record {
  index = little_endian (take 4 (drop 4 t));
  name = [];
  hardware_type = little_endian (take 2 (drop 2 t));
  flags = little_endian (take 4 (drop 8 t));
  kind = [];
  link_index = none;
  master_index = none;
  oper_state = none;
  rx_bytes = none;
  tx_bytes = none;
  device_path = [];
}

-- The last test, where an index is positive below 2^31.
unfoldable pub with_identity : Link → Result Error Link
with_identity l =
    if (l.index == 0) || leb (2 ^ 31) l.index || is_empty l.name
    then err (plain (bytes "interface message lacks identity"))
    else ok l

unfoldable pub decode_link : Text → Result Error Link
unfolding parse_attributes put_attributes with_identity
decode_link t =
    if ltb (length t) if_info_message_size
    then err (plain (bytes "truncated interface message"))
    else parse_attributes (drop if_info_message_size t) >>= λ attributes.
        put_attributes attributes (header_link t) >>= with_identity
