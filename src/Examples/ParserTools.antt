-- ===== src/Examples/ParserTools.antt =====
-- crates/parser/src/lib.rs: the tool parser on small streams, with a JSON library that knows one object.
use locus.Base.{
  Bool, true, false, none, some, List, [], ◌∷◌, ◌++◌, ◌≡◌, refl, arith, ◌≤◌, max, if◌then◌else◌,
}
use locus.Base.Lists.{length}
use locus.Base.Results.{ok, err}
use locus.Core.Identity.{SemanticComponentIdentity}
use locus.Parser.{Bytes, bytes_beq, max_delimiter_bytes, validate_delimiters, find, call_too_long}
use locus.Parser.Tools
use locus.Parser.Tools.{
  Json, TaggedJsonToolParserDefinition, TaggedJsonToolParserState, ToolMode, ToolSegment,
  ToolPushed, tool_state, new_tools, complete_call, complete_from, parse_tool_envelope,
}
use locus.Parser.Tools.Returns.{HasDelimiters, tools-push_returns}
use locus.Parser.Tools.Written.{IsFed, fresh, fed, Renders, finish-Renders}
use locus.Parser.Tools.Bounds.{tools-pending_bounds}

abbrev braces : Bytes
braces = b'{' ∷ b'}' ∷ []

-- `true` is an object with a name and arguments, and `false` a string.
abbrev json : Json
json = record {
  Value = Bool;
  from_str = λ x. if bytes_beq x braces then some true else none;
  as_object = λ v. if v then some (("arguments", true) ∷ ("name", false) ∷ []) else none;
  as_str = λ v. if v then none else some (b'f' ∷ []);
  to_string = λ v. if v then some braces else some [];
}

abbrev identity : SemanticComponentIdentity
identity = record { kind = "tool"; revision = "r1"; fingerprint = "f1" }

abbrev start : Bytes
start = b'<' ∷ b't' ∷ b'>' ∷ []

abbrev end : Bytes
end = b'<' ∷ b'/' ∷ b'>' ∷ []

abbrev def : TaggedJsonToolParserDefinition
def = record {
  identity = identity;
  start_delimiter = start;
  end_delimiter = end;
  max_buffered_bytes = 2;
}

def-HasDelimiters : HasDelimiters def
def-HasDelimiters = record { start_nonempty = omega arith; end_nonempty = omega arith }

abbrev first : Bytes
first = b'a' ∷ start ++ b'{' ∷ []

abbrev second : Bytes
second = b'}' ∷ end ++ b'b' ∷ []

abbrev halfway : TaggedJsonToolParserState
halfway = record { mode = ToolMode.tool; pending = b'{' ∷ [] }

abbrev ending : TaggedJsonToolParserState
ending = record { mode = ToolMode.text; pending = [] }

abbrev first_out : List ToolSegment
first_out = ToolSegment.text (b'a' ∷ []) ∷ []

abbrev second_out : List ToolSegment
second_out = ToolSegment.call (b'f' ∷ []) braces ∷ ToolSegment.text (b'b' ∷ []) ∷ []

push-first : Tools.push json def tool_state first ≡ some (halfway, ok first_out)
unfolding Tools.push find tool_state complete_call parse_tool_envelope
push-first = refl

push-second : Tools.push json def halfway second ≡ some (ending, ok second_out)
unfolding Tools.push find complete_call parse_tool_envelope
push-second = refl

finish-ending : Tools.finish json def ending ≡ ok []
unfolding Tools.finish
finish-ending = refl

both-IsFed : IsFed json def (([] ++ first) ++ second) (([] ++ first_out) ++ second_out) ending
both-IsFed = fed second second_out ending (fed first first_out halfway fresh push-first) push-second

tools-push_returns_example : (p : ToolPushed) × (Tools.push json def tool_state first ≡ some p)
tools-push_returns_example = tools-push_returns json def def-HasDelimiters tool_state first

finish-Renders_example : Renders json def ((first_out ++ second_out) ++ []) (first ++ second)
finish-Renders_example = finish-Renders json def def-HasDelimiters [] both-IsFed finish-ending

new_def : new_tools identity start end 2 ≡ ok def
unfolding new_tools validate_delimiters
new_def = refl

tools-pending_bounds_example : length halfway.pending ≤ max max_delimiter_bytes 2
tools-pending_bounds_example =
    tools-pending_bounds json identity start end first 2 def tool_state halfway first_out new_def
      push-first

-- An envelope of the greatest length is refused when the text ends within the delimiter behind it.
split_delimiter :
    Tools.push json def halfway (b'}' ∷ b'<' ∷ [])
    ≡ some (record { mode = ToolMode.tool; pending = braces ++ b'<' ∷ [] }, err call_too_long)
unfolding Tools.push find complete_call parse_tool_envelope
split_delimiter = refl
