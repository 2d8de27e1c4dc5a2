-- ===== src/Examples/Parser.antt =====
-- crates/parser/src/lib.rs: the two parsers on small streams.
use locus.Base.{true, false, some, List, [], ◌∷◌, ◌++◌, ◌≡◌, refl, arith, ◌≤◌, ◌⊎◌}
use locus.Base.Lists.{length}
use locus.Base.Results.{ok, err}
use locus.Core.Identity.{SemanticComponentIdentity}
use locus.Parser.{Bytes, max_delimiter_bytes, validate_delimiters, find, unexpected_delimiter}
use locus.Parser.Reasoning
use locus.Parser.Reasoning.{
  TaggedReasoningParserDefinition, TaggedReasoningParserState, ReasoningMode, ReasoningSegment,
  Pushed, reasoning_state, new_reasoning,
}
use locus.Parser.Reasoning.Returns.{HasDelimiters, push_returns}
use locus.Parser.Reasoning.Written.{IsFed, fresh, fed, finish-written, written, tagged}
use locus.Parser.Reasoning.Growth.{IsApart}
use locus.Parser.Reasoning.Chunks.{push-push, push-error_append}
use locus.Parser.Reasoning.Shift.{Same}
use locus.Parser.Reasoning.Bounds.{push-pending_bounds}
use locus.Parser.Reasoning.Stream.{IsFed-push}

abbrev identity : SemanticComponentIdentity
identity = record { kind = "reasoning"; revision = "r1"; fingerprint = "f1" }

abbrev start : Bytes
start = b'<' ∷ b't' ∷ b'>' ∷ []

abbrev end : Bytes
end = b'<' ∷ b'/' ∷ b'>' ∷ []

abbrev def : TaggedReasoningParserDefinition
def = record { identity = identity; start_delimiter = start; end_delimiter = end }

def-HasDelimiters : HasDelimiters def
def-HasDelimiters = record { start_nonempty = omega arith; end_nonempty = omega arith }

def-IsApart : IsApart def
unfolding find
def-IsApart = record { start_outside = refl; end_outside = refl }

-- A delimiter that the calls cut in two: its first half is held back.
abbrev first : Bytes
first = b'a' ∷ b'<' ∷ b't' ∷ []

abbrev second : Bytes
second = b'>' ∷ b'b' ∷ b'<' ∷ b'/' ∷ b'>' ∷ b'c' ∷ []

abbrev halfway : TaggedReasoningParserState
halfway = record { mode = ReasoningMode.text; pending = b'<' ∷ b't' ∷ []; saw_reasoning = false }

abbrev ending : TaggedReasoningParserState
ending = record { mode = ReasoningMode.text; pending = []; saw_reasoning = true }

abbrev first_out : List ReasoningSegment
first_out = ReasoningSegment.text (b'a' ∷ []) ∷ []

abbrev second_out : List ReasoningSegment
second_out = ReasoningSegment.reasoning (b'b' ∷ []) ∷ ReasoningSegment.text (b'c' ∷ []) ∷ []

push-first : Reasoning.push def reasoning_state first ≡ some (halfway, ok first_out)
unfolding Reasoning.push find reasoning_state
push-first = refl

push-second : Reasoning.push def halfway second ≡ some (ending, ok second_out)
unfolding Reasoning.push find
push-second = refl

finish-ending : Reasoning.finish def ending ≡ ok []
unfolding Reasoning.finish
finish-ending = refl

both-IsFed : IsFed def (([] ++ first) ++ second) (([] ++ first_out) ++ second_out) ending
both-IsFed = fed second second_out ending (fed first first_out halfway fresh push-first) push-second

push_returns_example : (p : Pushed) × (Reasoning.push def reasoning_state first ≡ some p)
push_returns_example = push_returns def reasoning_state first def-HasDelimiters

finish-written_example :
    (written ((first_out ++ second_out) ++ []) ≡ tagged ReasoningMode.text (first ++ second))
    ⊎ ((t : Bytes) × (r : Bytes) × (u : Bytes) × (first ++ second
          ≡ t ++ (start ++ (r ++ (end ++ u))))
        × (written ((first_out ++ second_out) ++ [])
            ≡ tagged ReasoningMode.text t
              ++ (tagged ReasoningMode.reasoning r ++ tagged ReasoningMode.text u)))
finish-written_example = finish-written def [] both-IsFed finish-ending

push-push_example :
    (q : Pushed) × (Reasoning.push def reasoning_state (first ++ second) ≡ some q)
    × Same (written first_out) (ending, ok second_out) q
push-push_example =
    push-push def reasoning_state halfway first second first_out (ending, ok second_out)
      def-HasDelimiters def-IsApart push-first push-second

-- An end that nothing begins.
abbrev stray : TaggedReasoningParserState
stray = record { mode = ReasoningMode.text; pending = end; saw_reasoning = false }

push-stray : Reasoning.push def reasoning_state end ≡ some (stray, err unexpected_delimiter)
unfolding Reasoning.push find reasoning_state
push-stray = refl

push-error_append_example :
    (s : TaggedReasoningParserState) × (Reasoning.push def reasoning_state (end ++ second)
      ≡ some (s, err unexpected_delimiter))
push-error_append_example =
    push-error_append def reasoning_state stray end second unexpected_delimiter def-HasDelimiters
      def-IsApart push-stray

new_def : new_reasoning identity start end ≡ ok def
unfolding new_reasoning validate_delimiters
new_def = refl

push-pending_bounds_example : length halfway.pending ≤ max_delimiter_bytes
push-pending_bounds_example =
    push-pending_bounds identity start end first def reasoning_state halfway first_out new_def
      push-first

IsFed-push_example :
    (o : List ReasoningSegment) × (Reasoning.push def reasoning_state (first ++ second)
      ≡ some (ending, ok o))
    × (written (first_out ++ second_out) ≡ written o)
IsFed-push_example = IsFed-push def def-HasDelimiters def-IsApart both-IsFed
