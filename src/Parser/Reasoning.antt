-- ===== src/Parser/Reasoning.antt =====
-- crates/parser/src/lib.rs: the parser of one tagged reasoning section.
pub mod Returns
pub mod Written
pub mod Shift
pub mod Growth
pub mod Chunks
pub mod Bounds
pub mod Stream
use locus.Base.{
  ℕ, zero, suc, ◌+◌, ◌-◌, Bool, true, false, not, Option, none, some, List, [], ◌∷◌, ◌++◌, ltb,
  nat_beq, if◌then◌else◌,
}
use locus.Base.Lists.{length, is_empty}
use locus.Base.Results.{Result, ok, err, ◌>>=◌, ◌>>◌}
use locus.Core.Identity.{SemanticComponentIdentity}
use locus.Parser.{
  Bytes, ParserError, unexpected_delimiter, repeated_section, unterminated_section,
  incomplete_delimiter, find, take, drop, longest_delimiter_prefix_suffix, validate_delimiters,
  is_before,
}

pub record TaggedReasoningParserDefinition : Type 0 where
  pub identity : SemanticComponentIdentity
  pub start_delimiter : Bytes
  pub end_delimiter : Bytes

pub data ReasoningMode : Type 0 where
  text reasoning : ReasoningMode

pub data ReasoningSegment : Type 0 where
  text reasoning : Bytes → ReasoningSegment

-- The state beside its definition, which never changes.
pub record TaggedReasoningParserState : Type 0 where
  pub mode : ReasoningMode
  pub pending : Bytes
  pub saw_reasoning : Bool

unfoldable pub new_reasoning :
    SemanticComponentIdentity → Bytes → Bytes → Result ParserError TaggedReasoningParserDefinition
new_reasoning identity start end = do
  validate_delimiters start end
  ok (record { identity = identity; start_delimiter = start; end_delimiter = end })

unfoldable pub reasoning_state : TaggedReasoningParserState
reasoning_state = record { mode = ReasoningMode.text; pending = []; saw_reasoning = false }

unfoldable pub push_reasoning_segment :
    List ReasoningSegment → ReasoningMode → Bytes → List ReasoningSegment
push_reasoning_segment output mode [] = output
push_reasoning_segment output ReasoningMode.text (a ∷ x) =
    output ++ ReasoningSegment.text (a ∷ x) ∷ []
push_reasoning_segment output ReasoningMode.reasoning (a ∷ x) =
    output ++ ReasoningSegment.reasoning (a ∷ x) ∷ []

-- The state that a call leaves, and its result.
abbrev pub Pushed : Type 0
Pushed = TaggedReasoningParserState × Result ParserError (List ReasoningSegment)

module _ (def : TaggedReasoningParserDefinition) where
  -- The delimiter that ends the mode, and the one that must not come first.
  abbrev pub delimiter : ReasoningMode → Bytes
  delimiter ReasoningMode.text = def.start_delimiter
  delimiter ReasoningMode.reasoning = def.end_delimiter

  abbrev pub forbidden : ReasoningMode → Bytes
  forbidden ReasoningMode.text = def.end_delimiter
  forbidden ReasoningMode.reasoning = def.start_delimiter

  -- No delimiter is complete: all but the longest suffix that may begin one is emitted.
  unfoldable pub emit : TaggedReasoningParserState → List ReasoningSegment → Pushed
  unfolding longest_delimiter_prefix_suffix push_reasoning_segment
  emit st output =
      let emit_bytes =
        length st.pending
        - longest_delimiter_prefix_suffix st.pending (delimiter st.mode) (forbidden st.mode) in
      (
        record st { pending = drop emit_bytes st.pending },
        ok (push_reasoning_segment output st.mode (take emit_bytes st.pending)),
      )

  -- The end of a section, after its delimiter is drained.
  unfoldable pub switch :
      ReasoningMode → TaggedReasoningParserState → Result ParserError TaggedReasoningParserState
  switch ReasoningMode.text st =
      if st.saw_reasoning
      then err repeated_section
      else ok (record st { saw_reasoning = true; mode = ReasoningMode.reasoning })
  switch ReasoningMode.reasoning st = ok (record st { mode = ReasoningMode.text })

  -- The part of the pending text before the delimiter, and after it.
  abbrev pub drained : ℕ → TaggedReasoningParserState → TaggedReasoningParserState
  drained position st = record st {
    pending = drop (position + length (delimiter st.mode)) st.pending;
  }

  -- What a round of the loop comes to: the call's end, or another round.
  pub data Round : Type 0 where
    done : Pushed → Round
    again : TaggedReasoningParserState → List ReasoningSegment → Round

  abbrev pub after_switch :
      TaggedReasoningParserState
      → List ReasoningSegment
      → Result ParserError TaggedReasoningParserState
      → Round
  after_switch left output (err e) = done (left, err e)
  after_switch left output (ok st) = again st output

  -- The round when `find` has seen both delimiters.
  unfoldable pub round_at :
      TaggedReasoningParserState → List ReasoningSegment → Option ℕ → Option ℕ → Round
  unfolding emit switch push_reasoning_segment
  round_at st output delimiter_position forbidden_position =
      if is_before forbidden_position delimiter_position
      then done (st, err unexpected_delimiter)
      else elim delimiter_position [
        | none ↦ done (emit st output)
        | some position ↦
            after_switch (drained position st)
              (push_reasoning_segment output st.mode (take position st.pending))
              (switch st.mode (drained position st))
      ]

  unfoldable pub round : TaggedReasoningParserState → List ReasoningSegment → Round
  unfolding find round_at
  round st output =
      round_at st output (find st.pending (delimiter st.mode)) (find st.pending (forbidden st.mode))

  -- The loop of `push`; `none` when the fuel runs out.
  unfoldable pub push_loop : ℕ → TaggedReasoningParserState → List ReasoningSegment → Option Pushed
  unfolding round
  push_loop zero st output = none
  push_loop (suc fuel) st output = elim (round st output) [
    | done pushed ↦ some pushed
    | again st' output' ↦ push_loop fuel st' output'
  ]

  -- Every round of the loop drains a delimiter, which is not empty.
  unfoldable pub push : TaggedReasoningParserState → Bytes → Option Pushed
  unfolding push_loop
  push st delta =
      let joined : TaggedReasoningParserState = record st { pending = st.pending ++ delta } in
      push_loop (suc (length joined.pending)) joined []

  unfoldable pub finish : TaggedReasoningParserState → Result ParserError (List ReasoningSegment)
  finish st = elim st.mode [
    | reasoning ↦ err unterminated_section
    | text ↦ if not (is_empty st.pending) then err incomplete_delimiter else ok []
  ]
