-- ===== src/Tests/NetworkTests.antt =====
-- The network collector at a device and a VLAN over it.
use joy_pi_health.Prelude.{◌≡◌, ◌≢◌, ◌↔◌, refl, true, none, some, List, [], ◌∷◌}
use joy_pi_health.Result.{ok, err}
use joy_pi_health.Text.{bytes, text_eq, text_lt, has_prefix, contains_byte}
use joy_pi_health.Text.Utf8.{valid_utf8}
use joy_pi_health.Observe.Outcome.{present}
use joy_pi_health.Observe.Observations.{is_present, validate_network}
use joy_pi_health.Observe.Network.{
  Link, no_fuel, find_link, is_named, check_links, check_link, check_all_references,
  check_references, valid_device_path, members_of, externally_capable, resolve_link,
  physical_device_path,
}
use joy_pi_health.Observe.Network.Collect.{observe_links, insert_interface, collect_network}
use joy_pi_health.Observe.Network.Fuel.{observe_links-Ends}
use joy_pi_health.Observe.Network.Sound.{collect_network_accepted}
use joy_pi_health.Observe.Network.Names.{is_reported}
use joy_pi_health.Observe.Network.Reports.{HasExternal, collect_network_iff}

abbrev device : Link
device = record {
  index = 2;
  name = bytes "eth0";
  hardware_type = 1;
  flags = 0;
  kind = [];
  link_index = none;
  master_index = none;
  oper_state = some 6;
  rx_bytes = some 7;
  tx_bytes = none;
  device_path = bytes "/sys/devices/pci/eth0";
}

abbrev vlan : Link
vlan = record device {
  index = 3;
  name = bytes "a.1";
  kind = bytes "vlan";
  link_index = some 2;
  device_path = bytes "/sys/devices/virtual/a.1";
}

abbrev two_links : List Link
two_links = vlan ∷ device ∷ []

observed_links : is_present (collect_network none (ok two_links)) ≡ true
unfolding collect_network present valid_utf8 text_eq text_lt has_prefix contains_byte find_link
    is_named check_links check_link check_all_references check_references valid_device_path
    members_of externally_capable resolve_link physical_device_path observe_links insert_interface
observed_links = refl

collect_network_iff_example :
    (is_reported (bytes "a.1") (collect_network none (ok two_links)).value.interfaces ≡ true)
    ↔ HasExternal two_links two_links (bytes "a.1")
collect_network_iff_example = collect_network_iff two_links (bytes "a.1") observed_links

collect_network_accepted_example : validate_network (collect_network none (ok two_links)) ≡ none
collect_network_accepted_example = collect_network_accepted none (ok two_links)

observe_links-Ends_example : observe_links two_links [] two_links ≢ err no_fuel
observe_links-Ends_example = observe_links-Ends two_links [] two_links
