-- ===== src/Firewall/Rules.antt =====
-- validation.go. `Net` stands for strings.ToLower, the class of letters and digits of commentPattern,
-- strconv.Atoi, and the addresses of package net: whether a text is one, with true for IPv4.
use opendeploy.Common.{
  ℕ, Bool, true, false, not, ◌&&◌, ◌||◌, Option, none, some, List, [], ◌∷◌, String, Result, ok, err,
  ◌>>=◌, ◌>>◌, refuse_if, if◌then◌else◌, ltb, leb, ◌==◌, all, any, length,
}
use opendeploy.Common.Text.{Text, codes, text_eq, contains_byte, trim_space, split}

pub record Rule : Type 0 where
  pub action : Text
  pub protocol : Text
  pub direction : Text
  pub ip_version : Text
  pub port : Text
  pub source : Text
  pub destination : Text
  pub comment : Text

pub record Net : Type 0 where
  pub to_lower : Text → Text
  pub is_comment : Text → Bool
  pub atoi : Text → Option ℕ
  pub parse_ip : Text → Option Bool
  pub is_cidr : Text → Bool

pub data RuleError : Type 0 where
  bad_action bad_protocol bad_direction bad_version nothing_given bad_comment : RuleError
  not_address wrong_version : RuleError
  too_many_parts bad_port bad_range : RuleError

abbrev pub is_empty : Text → Bool
is_empty [] = true
is_empty (c ∷ t) = false

-- oneOf
abbrev pub one_of : Text → List Text → Bool
one_of value = any (text_eq value)

abbrev pub or_default : Text → String → Text
or_default value d = if is_empty value then codes d else value

abbrev pub is_lower : ℕ → Bool
is_lower c = leb b'a' c && leb c b'z'

-- servicePortPattern
unfoldable pub is_service : Text → Bool
is_service [] = false
is_service (c ∷ t) =
    is_lower c
    && (leb (length t) 31 && all (λ d. is_lower d || ((leb b'0' d && leb d b'9') || d == b'-')) t)

abbrev pub actions : List Text
actions = codes "allow" ∷ codes "deny" ∷ codes "reject" ∷ []

abbrev pub protocols : List Text
protocols = codes "tcp" ∷ codes "udp" ∷ codes "any" ∷ []

abbrev pub directions : List Text
directions = codes "in" ∷ codes "out" ∷ []

abbrev pub versions : List Text
versions = codes "ipv4" ∷ codes "ipv6" ∷ codes "both" ∷ []

-- the separator of the two ports of a range
abbrev pub separator : Text → ℕ
separator value = if contains_byte b'-' value then b'-' else b':'

abbrev pub first_part : List Text → Text
first_part [] = []
first_part (p ∷ ps) = p

module _ (net : Net) where
  abbrev pub port_number : Option ℕ → Result RuleError ℕ
  port_number none = err bad_port
  port_number (some n) = if ltb n 1 || ltb 65535 n then err bad_port else ok n

  unfoldable pub port_numbers : List Text → Result RuleError (List ℕ)
  port_numbers [] = ok []
  port_numbers (p ∷ ps) = do n ← port_number (net.atoi p); ns ← port_numbers ps; ok (n ∷ ns)

  abbrev pub is_falling : List ℕ → Bool
  is_falling (a ∷ b ∷ []) = leb b a
  is_falling ns = false

  unfoldable pub check_range : Text → Result RuleError (List ℕ)
  check_range value = do
    let parts = split value (separator value)
    refuse_if (ltb 2 (length parts)) too_many_parts
    ns ← port_numbers parts
    refuse_if (is_falling ns) bad_range
    ok ns

  -- validatePort
  unfoldable pub validate_port : Text → Result RuleError (Unit {0})
  validate_port value = if is_service value then ok tt else check_range value >>= (λ ns. ok tt)

  abbrev pub is_address : Text → Bool
  is_address value = elim (net.parse_ip value) [ some v4 ↦ true | none ↦ net.is_cidr value ]

  abbrev pub is_v4 : Option Bool → Bool
  is_v4 none = false
  is_v4 (some v4) = v4

  abbrev pub contradicts : Text → Bool → Bool
  contradicts version v4 =
      (text_eq version (codes "ipv4") && not v4) || (text_eq version (codes "ipv6") && v4)

  -- validateAddress
  unfoldable pub validate_address : Text → Text → Result RuleError (Unit {0})
  validate_address value version = if is_empty value then ok tt else (do
    refuse_if (not (is_address value)) not_address
    let v4 = is_v4 (net.parse_ip (first_part (split value b'/')))
    refuse_if (not (text_eq version (codes "both")) && contradicts version v4) wrong_version)

  abbrev pub word : Text → String → Text
  word value d = or_default (net.to_lower (trim_space value)) d

  abbrev pub normalized : Rule → Rule
  normalized r = record {
    action = word r.action "allow";
    protocol = word r.protocol "any";
    direction = word r.direction "in";
    ip_version = word r.ip_version "both";
    port = trim_space r.port;
    source = trim_space r.source;
    destination = trim_space r.destination;
    comment = trim_space r.comment;
  }

  abbrev pub validate_given : Text → Result RuleError (Unit {0})
  validate_given port = if is_empty port then ok tt else validate_port port

  unfoldable pub check_rule : Rule → Result RuleError (Unit {0})
  check_rule r = do
    refuse_if (not (one_of r.action actions)) bad_action
    refuse_if (not (one_of r.protocol protocols)) bad_protocol
    refuse_if (not (one_of r.direction directions)) bad_direction
    refuse_if (not (one_of r.ip_version versions)) bad_version
    refuse_if (is_empty r.port && (is_empty r.source && is_empty r.destination)) nothing_given
    validate_given r.port
    validate_address r.source r.ip_version
    validate_address r.destination r.ip_version
    refuse_if (not (net.is_comment r.comment)) bad_comment

  -- validateRule, with the rule that is written back. Go checks the two addresses in an order of its own,
  -- with the same outcome but for the name in the message.
  unfoldable pub validate_rule : Rule → Result RuleError Rule
  validate_rule r = do check_rule (normalized r); ok (normalized r)
