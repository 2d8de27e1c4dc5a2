-- ===== src/Traffic/Policy.antt =====
-- crates/runtime/src/traffic.rs: the traffic policy, its validation and the controller made from
-- it. Durations are whole nanoseconds.
use Prim.Native.String.{len, ◌++◌ as append}
use Prim.Native.Char.{code}
use locus.Base.{
  ℕ, Bool, ◌&&◌, ◌||◌, not, Option, none, String, List, [], ◌∷◌, leb, ltb, nat_beq, if◌then◌else◌,
  is_some_and, string_key, ◌≡◌, refl,
}
use locus.Base.Dict.{Dict, contains_key, insert}
use locus.Base.Lists.{length, is_empty, all}
use locus.Base.Results.{Result, ok, err, ◌>>=◌, ◌>>◌, reject_if}

pub record ServiceClassPolicy : Type 0 where
  pub id : String
  pub weight : ℕ
  pub max_active_requests : ℕ
  pub max_active_tokens : ℕ
  pub shed_at_global_utilization_bps : Option ℕ

pub record TenantPolicy : Type 0 where
  pub id : String
  pub service_class : String
  pub weight : ℕ
  pub max_active_requests : ℕ
  pub max_active_tokens : ℕ
  pub max_queued_requests : ℕ
  pub max_tokens_per_request : ℕ
  pub default_request_timeout : ℕ
  pub max_request_timeout : ℕ

pub record TrafficPolicy : Type 0 where
  pub max_active_requests : ℕ
  pub max_active_tokens : ℕ
  pub max_queued_requests : ℕ
  pub default_output_tokens : ℕ
  pub classes : List ServiceClassPolicy
  pub tenants : List TenantPolicy

pub data TrafficConfigurationError : Type 0 where
  invalid : String → TrafficConfigurationError

abbrev pub max_service_classes : ℕ
max_service_classes = 64

abbrev pub max_tenants : ℕ
max_tenants = 1024

infixl 65 ◌^^◌
abbrev ◌^^◌ : String → String → String
s ^^ t = append s t

abbrev codes : String → List ℕ
codes String.[] = []
codes (String.◌∷◌ c s) = code c ∷ codes s

abbrev is_ascii_alphanumeric : ℕ → Bool
is_ascii_alphanumeric c =
    (leb b'0' c && leb c b'9') || (leb b'A' c && leb c b'Z') || (leb b'a' c && leb c b'z')

-- A text is made of such bytes exactly if its code points are such.
unfoldable pub validate_label : String → String → Result TrafficConfigurationError (Unit {0})
validate_label kind value =
    if not (nat_beq (len value) 0)
      && leb (len value) 64
      && all (λ c. is_ascii_alphanumeric c || nat_beq c b'_' || nat_beq c b'-' || nat_beq c b'.')
          (codes value)
    then ok tt
    else err (invalid (kind ^^ " must be 1-64 ASCII letters, digits, '.', '_' or '-'"))

unfoldable pub class_limits_invalid : ServiceClassPolicy → Bool
class_limits_invalid class =
    nat_beq class.weight 0
    || nat_beq class.max_active_requests 0
    || nat_beq class.max_active_tokens 0
    || is_some_and class.shed_at_global_utilization_bps (λ threshold. ltb 10000 threshold)

unfoldable pub tenant_limits_invalid : TenantPolicy → Bool
tenant_limits_invalid tenant =
    nat_beq tenant.weight 0
    || nat_beq tenant.max_active_requests 0
    || nat_beq tenant.max_active_tokens 0
    || nat_beq tenant.max_queued_requests 0
    || nat_beq tenant.max_tokens_per_request 0
    || nat_beq tenant.default_request_timeout 0
    || ltb tenant.max_request_timeout tenant.default_request_timeout

-- The loop over the classes, with the ids seen so far.
unfoldable pub validate_classes :
    List ServiceClassPolicy
    → Dict String (Unit {0})
    → Result TrafficConfigurationError (Dict String (Unit {0}))
unfolding validate_label class_limits_invalid
validate_classes [] seen = ok seen
validate_classes (class ∷ rest) seen = do
  validate_label "service class" class.id
  reject_if (class_limits_invalid class)
      (invalid ("service class " ^^ class.id ^^ " has invalid limits, weight, or shed threshold"))
  reject_if (contains_key class.id seen) (invalid ("duplicate service class: " ^^ class.id))
  validate_classes rest (insert class.id tt seen)

-- The loop over the tenants.
unfoldable pub validate_tenants :
    Dict String (Unit {0})
    → List TenantPolicy
    → Dict String (Unit {0})
    → Result TrafficConfigurationError (Unit {0})
unfolding validate_label tenant_limits_invalid
validate_tenants classes [] seen = ok tt
validate_tenants classes (tenant ∷ rest) seen = do
  validate_label "tenant" tenant.id
  reject_if (not (contains_key tenant.service_class classes)) (
      invalid
        ("tenant " ^^ tenant.id ^^ " references unknown service class " ^^ tenant.service_class))
  reject_if (tenant_limits_invalid tenant)
      (invalid ("tenant " ^^ tenant.id ^^ " has invalid limits, weight, or deadlines"))
  reject_if (contains_key tenant.id seen) (invalid ("duplicate tenant: " ^^ tenant.id))
  validate_tenants classes rest (insert tenant.id tt seen)

unfoldable pub validate : TrafficPolicy → Result TrafficConfigurationError (Unit {0})
unfolding validate_classes validate_tenants
validate policy = do
  reject_if
      (nat_beq policy.max_active_requests 0
        || nat_beq policy.max_active_tokens 0
        || nat_beq policy.max_queued_requests 0
        || nat_beq policy.default_output_tokens 0)
      (invalid "global traffic limits must be greater than zero")
  reject_if (is_empty policy.classes || is_empty policy.tenants)
      (invalid "at least one service class and tenant must be configured")
  reject_if
      (ltb max_service_classes (length policy.classes) || ltb max_tenants (length policy.tenants))
      (invalid "traffic policy exceeds cardinality limits of 64 classes and 1024 tenants")
  classes ← validate_classes policy.classes []
  validate_tenants classes policy.tenants []

-- What the controller keeps beside its mutable state.
pub record TrafficControllerInner : Type 0 where
  pub policy : TrafficPolicy
  pub classes : Dict String ServiceClassPolicy
  pub tenants : Dict String TenantPolicy

-- `collect` into a map: later entries replace earlier ones.
unfoldable pub collect_classes :
    List ServiceClassPolicy → Dict String ServiceClassPolicy → Dict String ServiceClassPolicy
unfolding insert
collect_classes [] m = m
collect_classes (class ∷ rest) m = collect_classes rest (insert class.id class m)

unfoldable pub collect_tenants :
    List TenantPolicy → Dict String TenantPolicy → Dict String TenantPolicy
unfolding insert
collect_tenants [] m = m
collect_tenants (tenant ∷ rest) m = collect_tenants rest (insert tenant.id tenant m)

unfoldable pub new_controller :
    TrafficPolicy → Result TrafficConfigurationError TrafficControllerInner
unfolding validate collect_classes collect_tenants
new_controller policy = do
  validate policy
  ok (record {
    policy = policy;
    classes = collect_classes policy.classes [];
    tenants = collect_tenants policy.tenants [];
  })

-- `TrafficPolicy::default`; 120 and 600 seconds.
unfoldable pub default_policy : TrafficPolicy
default_policy = record {
  max_active_requests = 128;
  max_active_tokens = 1048576;
  max_queued_requests = 1024;
  default_output_tokens = 256;
  classes =
      record {
        id = "standard";
        weight = 1;
        max_active_requests = 128;
        max_active_tokens = 1048576;
        shed_at_global_utilization_bps = none;
      }
      ∷ [];
  tenants =
      record {
        id = "default";
        service_class = "standard";
        weight = 1;
        max_active_requests = 128;
        max_active_tokens = 1048576;
        max_queued_requests = 1024;
        max_tokens_per_request = 65536;
        default_request_timeout = 120000000000;
        max_request_timeout = 600000000000;
      }
      ∷ [];
}

default_policy_valid : validate default_policy ≡ ok tt
unfolding validate default_policy contains_key insert
default_policy_valid = refl
