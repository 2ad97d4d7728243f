-- ===== src/Cron/Validate.antt =====
-- types.go, ValidateJob and validateCommand of validate.go. A `System` stands for the host's users,
-- directories and time zones, and for fmt.Sscanf, strings.ToLower
-- and strconv.Quote.
use opendeploy.Common.{
  ℕ, Bool, false, not, ◌&&◌, ◌||◌, Option, List, [], ◌∷◌, Result, ok, err, ◌>>◌, refuse_if, ltb,
  leb, ◌==◌, all, any, length,
}
use opendeploy.Common.Text.{Text, codes, contains, contains_any, has_prefix, trim_space}
use opendeploy.Cron.Schedule.{CronError, is_empty, validate_expression}

pub data JobType : Type 0 where
  untyped unknown_job system_job package_job opendeploy_job user_job : JobType

-- `environment` is in the order of its keys. Description, PackageName, CanEdit and CanDelete, which no check reads, are left out
pub record Job : Type 0 where
  pub id : Text
  pub name : Text
  pub command : Text
  pub working_dir : Text
  pub user_name : Text
  pub environment : List (Text × Text)
  pub expression : Text
  pub timezone : Text
  pub enabled : Bool
  pub created_at : ℕ
  pub updated_at : ℕ
  pub job_type : JobType
  pub is_protected : Bool

pub record System : Type 0 where
  pub sscanf : Text → Option ℕ
  pub to_lower : Text → Text
  pub user_exists : Text → Bool
  pub directory_exists : Text → Bool
  pub zone_exists : Text → Bool
  pub quote : Text → Text

pub data JobError : Type 0 where
  bad_id bad_name bad_command no_user unknown_user bad_directory bad_variable bad_timezone :
      JobError
  bad_expression : CronError → JobError
  io_failed already_exists protected not_exist : JobError

abbrev pub is_lower : ℕ → Bool
is_lower c = leb b'a' c && leb c b'z'

abbrev pub is_upper : ℕ → Bool
is_upper c = leb b'A' c && leb c b'Z'

abbrev pub is_digit : ℕ → Bool
is_digit c = leb b'0' c && leb c b'9'

abbrev pub is_alnum : ℕ → Bool
is_alnum c = is_lower c || (is_upper c || is_digit c)

-- jobIDPattern
unfoldable pub is_job_id : Text → Bool
is_job_id [] = false
is_job_id (c ∷ t) =
    is_alnum c && (leb (length t) 63 && all (λ d. is_alnum d || (d == b'_' || d == b'-')) t)

-- envKeyPattern
unfoldable pub is_env_key : Text → Bool
is_env_key [] = false
is_env_key (c ∷ t) =
    (is_upper c || c == b'_')
    && (leb (length t) 63 && all (λ d. is_upper d || (is_digit d || d == b'_')) t)

abbrev pub control_bytes : Text
control_bytes = 0 ∷ 13 ∷ 10 ∷ []

abbrev pub dangerous : List Text
dangerous =
    codes "rm -rf /"
    ∷ codes "mkfs."
    ∷ codes "dd if="
    ∷ codes ":(){"
    ∷ codes "shutdown"
    ∷ codes "poweroff"
    ∷ codes "reboot"
    ∷ codes "> /dev/sd"
    ∷ codes "chmod -r 777 /"
    ∷ codes "chown -r root /"
    ∷ []

module _ (sys : System) where
  unfoldable pub validate_command : Text → Result JobError (Unit {0})
  validate_command raw = do
    let command = trim_space raw
    refuse_if
        (is_empty command || (ltb 8192 (length command) || contains_any control_bytes command))
        bad_command
    refuse_if (any (contains (sys.to_lower command)) dangerous) bad_command

  abbrev pub schedule_of : Result CronError (Unit {0}) → Result JobError (Unit {0})
  schedule_of (ok a) = ok a
  schedule_of (err e) = err (bad_expression e)

  abbrev pub bad_dir : Text → Bool
  bad_dir d =
      not (is_empty d)
      && (not (has_prefix d (b'/' ∷ []))
          || (contains d (codes "..") || not (sys.directory_exists d)))

  abbrev pub bad_pair : Text × Text → Bool
  bad_pair (k, v) = not (is_env_key k) || (contains_any control_bytes v || ltb 4096 (length v))

  abbrev pub bad_zone : Text → Bool
  bad_zone z =
      not (is_empty z)
      && (contains z (codes "..")
          || (contains_any (32 ∷ control_bytes) z || not (sys.zone_exists z)))

  -- the warnings are left out
  unfoldable pub validate_job : Job → Result JobError (Unit {0})
  validate_job j = do
    refuse_if (not (is_job_id j.id)) bad_id
    refuse_if (is_empty (trim_space j.name) || ltb 128 (length j.name)) bad_name
    schedule_of (validate_expression sys.sscanf j.expression)
    validate_command j.command
    refuse_if (is_empty j.user_name) no_user
    refuse_if (not (sys.user_exists j.user_name)) unknown_user
    refuse_if (bad_dir j.working_dir) bad_directory
    refuse_if (any bad_pair j.environment) bad_variable
    refuse_if (bad_zone j.timezone) bad_timezone
