-- ===== src/Parser/Tools.antt =====
-- crates/parser/src/lib.rs: the parser of tagged tool calls. The JSON library is a parameter: what
-- it parses, the values that it calls objects and strings, and what it prints.
pub mod Returns
pub mod Written
pub mod Bounds
use locus.Base.{
  ℕ, zero, suc, ◌+◌, ◌-◌, Bool, true, false, not, ◌||◌, Option, none, some, String, List, [], ◌∷◌,
  ◌++◌, ltb, nat_beq, if◌then◌else◌, string_key,
}
use locus.Base.Dict.{Dict, lookup, contains_key, remove}
use locus.Base.Lists.{length, is_empty}
use locus.Base.Results.{Result, ok, err, ◌>>=◌, ◌>>◌, reject_if, ok_or}
use locus.Core.Identity.{SemanticComponentIdentity}
use locus.Parser.{
  Bytes, ParserError, unexpected_delimiter, call_too_long, unterminated_call, incomplete_delimiter,
  no_buffer, invalid_json, not_an_object, wrong_keys, no_name, no_arguments, unprintable, find,
  take, drop, longest_delimiter_prefix_suffix, validate_delimiters, is_before,
}

-- What the parser uses of `serde_json`.
pub record Json : Type 1 where
  pub Value : Type 0
  pub from_str : Bytes → Option Value
  pub as_object : Value → Option (Dict String Value)
  pub as_str : Value → Option Bytes
  pub to_string : Value → Option Bytes

pub record TaggedJsonToolParserDefinition : Type 0 where
  pub identity : SemanticComponentIdentity
  pub start_delimiter : Bytes
  pub end_delimiter : Bytes
  pub max_buffered_bytes : ℕ

pub data ToolMode : Type 0 where
  text tool : ToolMode

pub data ToolSegment : Type 0 where
  text : Bytes → ToolSegment
  call : Bytes → Bytes → ToolSegment

-- The state beside its definition, which never changes.
pub record TaggedJsonToolParserState : Type 0 where
  pub mode : ToolMode
  pub pending : Bytes

unfoldable pub new_tools :
    SemanticComponentIdentity
    → Bytes
    → Bytes
    → ℕ
    → Result ParserError TaggedJsonToolParserDefinition
new_tools identity start end max_buffered_bytes = do
  validate_delimiters start end
  reject_if (nat_beq max_buffered_bytes 0) no_buffer
  ok (record {
    identity = identity;
    start_delimiter = start;
    end_delimiter = end;
    max_buffered_bytes = max_buffered_bytes;
  })

unfoldable pub tool_state : TaggedJsonToolParserState
tool_state = record { mode = ToolMode.text; pending = [] }

unfoldable pub push_text : List ToolSegment → Bytes → List ToolSegment
push_text output [] = output
push_text output (a ∷ x) = output ++ ToolSegment.text (a ∷ x) ∷ []

abbrev pub nonempty : Bytes → Option Bytes
nonempty [] = none
nonempty (a ∷ x) = some (a ∷ x)

unfoldable pub parse_tool_envelope : (json : Json) → Bytes → Result ParserError (Bytes × Bytes)
unfolding contains_key lookup remove
parse_tool_envelope json input = do
  value ← ok_or invalid_json (json.from_str input)
  object ← ok_or not_an_object (json.as_object value)
  reject_if
      (not (nat_beq (length object) 2)
        || not (contains_key "name" object)
        || not (contains_key "arguments" object))
      wrong_keys
  named ← ok_or no_name (lookup "name" object)
  string ← ok_or no_name (json.as_str named)
  name ← ok_or no_name (nonempty string)
  arguments ← ok_or no_arguments (lookup "arguments" (remove "name" object))
  fields ← ok_or no_arguments (json.as_object arguments)
  normal ← ok_or unprintable (json.to_string arguments)
  ok (name, normal)

-- The state that a call leaves, and its result.
abbrev pub ToolPushed : Type 0
ToolPushed = TaggedJsonToolParserState × Result ParserError (List ToolSegment)

-- What `complete_call` finds: where the call's text ends, its name and its arguments.
abbrev pub Call : Type 0
Call = ℕ × Bytes × Bytes

module _ (json : Json) (def : TaggedJsonToolParserDefinition) where
  -- The loop of `complete_call` from `search_from`; `none` when the fuel runs out.
  unfoldable pub complete_from : ℕ → Bytes → ℕ → Option (Option Call)
  complete_from zero pending search_from = none
  complete_from (suc fuel) pending search_from =
      elim (find (drop search_from pending) def.end_delimiter) [
        | none ↦ some none
        | some relative ↦
            let position = search_from + relative in
            elim (parse_tool_envelope json (take position pending)) [
              | ok (name, arguments) ↦ some (some (position, name, arguments))
              | err e ↦ complete_from fuel pending (position + length def.end_delimiter)
            ]
      ]

  -- Every round goes past an end delimiter, which is not empty.
  unfoldable pub complete_call : Bytes → Option (Option Call)
  unfolding complete_from
  complete_call pending = complete_from (suc (length pending)) pending 0

  -- What a round of the loop comes to: the call's end, or another round.
  pub data Round : Type 0 where
    done : ToolPushed → Round
    again : TaggedJsonToolParserState → List ToolSegment → Round

  -- All but the longest suffix that may begin a delimiter is emitted.
  unfoldable pub emit_text : Bytes → List ToolSegment → ToolPushed
  unfolding longest_delimiter_prefix_suffix push_text
  emit_text pending output =
      let holdback =
        longest_delimiter_prefix_suffix pending def.start_delimiter def.end_delimiter in
      let emit_bytes = length pending - holdback in
      (
        record { mode = ToolMode.text; pending = drop emit_bytes pending },
        ok (push_text output (take emit_bytes pending)),
      )

  unfoldable pub text_round : Bytes → List ToolSegment → Option ℕ → Option ℕ → Round
  unfolding emit_text push_text
  text_round pending output start_position end_position =
      if is_before end_position start_position
      then done (record { mode = ToolMode.text; pending = pending }, err unexpected_delimiter)
      else elim start_position [
        | none ↦ done (emit_text pending output)
        | some position ↦
            again
              (record {
                mode = ToolMode.tool;
                pending = drop (position + length def.start_delimiter) pending;
              })
              (push_text output (take position pending))
      ]

  unfoldable pub tool_round : Bytes → List ToolSegment → Option Call → Round
  tool_round pending output none = done (
    record { mode = ToolMode.tool; pending = pending },
    if ltb def.max_buffered_bytes (length pending) then err call_too_long else ok output,
  )
  tool_round pending output (some (end_position, name, arguments)) =
      if ltb def.max_buffered_bytes end_position
      then done (record { mode = ToolMode.tool; pending = pending }, err call_too_long)
      else again
          (record {
            mode = ToolMode.text;
            pending = drop (end_position + length def.end_delimiter) pending;
          })
          (output ++ ToolSegment.call name arguments ∷ [])

  -- `none` when the fuel runs out.
  unfoldable pub round : TaggedJsonToolParserState → List ToolSegment → Option Round
  unfolding find text_round tool_round
  round st output = elim st.mode [
    | text ↦ some (
        text_round st.pending output (find st.pending def.start_delimiter)
          (find st.pending def.end_delimiter))
    | tool ↦ elim (complete_call st.pending) [
      | none ↦ none
      | some found ↦ some (tool_round st.pending output found)
    ]
  ]

  -- The loop of `push`; `none` when the fuel runs out.
  unfoldable pub push_loop : ℕ → TaggedJsonToolParserState → List ToolSegment → Option ToolPushed
  unfolding round
  push_loop zero st output = none
  push_loop (suc fuel) st output = elim (round st output) [
    | none ↦ none
    | some (done pushed) ↦ some pushed
    | some (again st' output') ↦ push_loop fuel st' output'
  ]

  -- Every round of the loop drains a delimiter, which is not empty.
  unfoldable pub push : TaggedJsonToolParserState → Bytes → Option ToolPushed
  unfolding push_loop
  push st delta =
      let joined : TaggedJsonToolParserState = record st { pending = st.pending ++ delta } in
      push_loop (suc (length joined.pending)) joined []

  unfoldable pub finish : TaggedJsonToolParserState → Result ParserError (List ToolSegment)
  finish st = elim st.mode [
    | tool ↦ err unterminated_call
    | text ↦ if not (is_empty st.pending) then err incomplete_delimiter else ok []
  ]
