-- ===== src/Firewall/Examples.antt =====
-- The theorem about ports at a concrete range, and tests.
use opendeploy.Common.{◌≡◌, refl, true, false, some, err, ◌⊎◌, [], ◌==◌, length, if◌then◌else◌}
use opendeploy.Common.Text.{Text, codes, text_eq, contains_byte, split, add_head, trim_space}
use opendeploy.Firewall.Rules.{
  Rule, Net, bad_range, wrong_version, is_service, port_numbers, check_range, validate_port,
  validate_address, check_rule, validate_rule,
}
use opendeploy.Firewall.Accepted.{IsPorts, validate_port_ok}

-- one byte is port 80, more are port 90; addresses have a dot, and are IPv4
abbrev net : Net
net = record {
  to_lower = λ s. s;
  is_comment = λ s. true;
  atoi = λ s. if length s == 1 then some 80 else some 90;
  parse_ip = λ s. some (contains_byte b'.' s);
  is_cidr = λ s. false;
}

validate_port_ok_example : (is_service (codes "1:22") ≡ true) ⊎ IsPorts net (codes "1:22")
unfolding validate_port check_range port_numbers is_service split add_head contains_byte
validate_port_ok_example = validate_port_ok net (codes "1:22") refl

falling_range : validate_port net (codes "11-2") ≡ err bad_range
unfolding validate_port check_range port_numbers is_service split add_head contains_byte
falling_range = refl

abbrev rule : Text → Rule
rule version = record {
  action = [];
  protocol = [];
  direction = [];
  ip_version = version;
  port = [];
  source = codes "10.0.0.1";
  destination = [];
  comment = [];
}

other_version : validate_rule net (rule (codes "ipv6")) ≡ err wrong_version
unfolding validate_rule check_rule validate_address validate_port trim_space text_eq split add_head
    contains_byte
other_version = refl
