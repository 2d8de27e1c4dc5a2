-- ===== src/Core/Identity.antt =====
-- crates/core/src/identity.rs, input.rs, execution.rs and state.rs: the data that the planner and
-- the executor read. Identifiers are texts; sets are lists of their members.
use locus.Base.{
  ℕ, ◌≡◌, refl, ap, Bool, true, false, ◌&&◌, ◌||◌, not, Option, none, some, String, List, nat_beq,
  leb, arith, ◌==◌, string_key, nat_key, pair_key,
}
use locus.Base.Lists.{any, all}

pub record EngineInstanceRef : Type 0 where
  pub id : String
  pub generation : ℕ

pub record ModelExecutionIdentity : Type 0 where
  pub model_revision : String
  pub adapter_revision : Option String
  pub execution_profile : String

pub record ExecutionTarget : Type 0 where
  pub id : String
  pub engine : EngineInstanceRef
  pub model : ModelExecutionIdentity
  pub residency : String
  pub capability_revision : String

pub record SemanticComponentIdentity : Type 0 where
  pub kind : String
  pub revision : String
  pub fingerprint : String

pub record InputSemanticIdentity : Type 0 where
  pub tokenizer : SemanticComponentIdentity
  pub template : SemanticComponentIdentity
  pub multimodal_preprocessing : Option SemanticComponentIdentity

pub data InputKind : Type 0 where
  token_sequence media_reference tensor_reference : InputKind
  prepared_input_reference typed_metadata : InputKind
  extension : String → InputKind

-- The items of an input: token sequences with their ids, and the others by their kind.
pub data InputItemValue : Type 0 where
  tokens : List ℕ → InputItemValue
  other : InputKind → InputItemValue

-- The derived `PartialEq` of these types.
abbrev pub option_beq {ℓ} : {A : Type ℓ} → (A → A → Bool) → Option A → Option A → Bool
option_beq f none none = true
option_beq f (some a) (some b) = f a b
option_beq f _ _ = false

unfoldable pub engine_beq : EngineInstanceRef → EngineInstanceRef → Bool
engine_beq a b = a.id == b.id && nat_beq a.generation b.generation

unfoldable pub model_beq : ModelExecutionIdentity → ModelExecutionIdentity → Bool
model_beq a b =
    a.model_revision == b.model_revision
    && option_beq (λ x y. x == y) a.adapter_revision b.adapter_revision
    && a.execution_profile == b.execution_profile

abbrev component_beq : SemanticComponentIdentity → SemanticComponentIdentity → Bool
component_beq a b = a.kind == b.kind && a.revision == b.revision && a.fingerprint == b.fingerprint

unfoldable pub input_semantics_beq : InputSemanticIdentity → InputSemanticIdentity → Bool
input_semantics_beq a b =
    component_beq a.tokenizer b.tokenizer
    && component_beq a.template b.template
    && option_beq component_beq a.multimodal_preprocessing b.multimodal_preprocessing

kind_beq : InputKind → InputKind → Bool
kind_beq token_sequence token_sequence = true
kind_beq media_reference media_reference = true
kind_beq tensor_reference tensor_reference = true
kind_beq prepared_input_reference prepared_input_reference = true
kind_beq typed_metadata typed_metadata = true
kind_beq (extension a) (extension b) = a == b
kind_beq _ _ = false

option_beq_eq : (a b : Option String) → option_beq (λ x y. x == y) a b ≡ true → a ≡ b
option_beq_eq none none h = refl
option_beq_eq (some a) (some b) h = ap some ((string_key.beq_iff a b).0 h)
option_beq_eq none (some b) h = ground arith
option_beq_eq (some a) none h = ground arith

-- The test of model identities decides equality.
pub model_beq→eq : (a b : ModelExecutionIdentity) → model_beq a b ≡ true → a ≡ b
unfolding model_beq
model_beq→eq a b h = ground (
  arith,
  string_key.beq_iff a.model_revision b.model_revision,
  string_key.beq_iff a.execution_profile b.execution_profile,
  option_beq_eq a.adapter_revision b.adapter_revision,
)

pub record CapabilityRequirements : Type 0 where
  pub input_kinds : List InputKind
  pub requires_incremental_output : Bool
  pub requires_reasoning_deltas : Bool
  pub requires_tool_calls : Bool
  pub requires_structured_output : Bool

pub record EngineCapabilities : Type 0 where
  pub supported_input_kinds : List InputKind
  pub emits_token_deltas : Bool
  pub emits_text_deltas : Bool
  pub emits_reasoning_deltas : Bool
  pub emits_tool_calls : Bool
  pub supports_structured_output : Bool
  pub supported_state_kinds : List String

unfoldable pub satisfies : EngineCapabilities → CapabilityRequirements → Bool
unfolding kind_beq
satisfies c r =
    all (λ k. any (kind_beq k) c.supported_input_kinds) r.input_kinds
    && (not r.requires_incremental_output || c.emits_token_deltas || c.emits_text_deltas)
    && (not r.requires_reasoning_deltas || c.emits_reasoning_deltas)
    && (not r.requires_tool_calls || c.emits_tool_calls)
    && (not r.requires_structured_output || c.supports_structured_output)

pub data TelemetryStatus : Type 0 where
  fresh stale unavailable : TelemetryStatus

pub record EngineSnapshot : Type 0 where
  pub target_id : String
  pub ready : Bool
  pub telemetry_status : TelemetryStatus
  pub observed_at_unix_millis : ℕ
  pub valid_until_unix_millis : ℕ
  pub running_requests : Option ℕ
  pub waiting_requests : Option ℕ
  pub estimated_queue_micros : Option ℕ
  pub prefill_tokens_per_second : Option ℕ
  pub decode_tokens_per_second : Option ℕ

abbrev is_fresh : TelemetryStatus → Bool
is_fresh fresh = true
is_fresh _ = false

unfoldable pub telemetry_is_fresh_at : EngineSnapshot → ℕ → Bool
telemetry_is_fresh_at s now =
    is_fresh s.telemetry_status
    && leb s.observed_at_unix_millis now
    && leb now s.valid_until_unix_millis

-- The parts of a request that placement reads.
pub record CanonicalRequest : Type 0 where
  pub id : String
  pub model : ModelExecutionIdentity
  pub input_semantics : InputSemanticIdentity
  pub items : List InputItemValue
  pub max_output_tokens : Option ℕ
  pub requirements : CapabilityRequirements

pub data CompatibilityVerdict : Type 0 where
  compatible incompatible unknown : CompatibilityVerdict

pub record CompatibilityResult : Type 0 where
  pub verdict : CompatibilityVerdict
  pub checked_dimensions : List String
  pub evidence : List String
  pub required_conversion : Option String

unfoldable pub is_compatible : CompatibilityResult → Bool
is_compatible r = elim r.verdict [ compatible ↦ true | _ ↦ false ]

pub record ComponentCoverage : Type 0 where
  pub item_id : String
  pub covered_units : ℕ

pub record StateDescriptor : Type 0 where
  pub id : String
  pub store : String
  pub kind : String
  pub model : ModelExecutionIdentity
  pub relevant_input_semantics : Option InputSemanticIdentity
  pub covered_components : List ComponentCoverage

pub record MaterializationOption : Type 0 where
  pub id : String
  pub store : String
  pub source_state : String
  pub target_id : String
  pub target_engine : EngineInstanceRef
  pub state_kind : String
  pub estimated_transfer_micros : ℕ
