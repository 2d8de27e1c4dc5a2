-- ===== src/Parser/Reasoning/Bounds.antt =====
-- crates/parser/src/lib.rs: the reasoning parser holds back a bounded text from one call to the next.
use locus.Base.{suc, ◌-◌, ◌≤◌, ◌≡◌, ap, subst, some, List, [], ◌++◌, arith, inl, inr}
use locus.Base.Lists.{length}
use locus.Base.Results.{ok, Result-cases}
use locus.Core.Identity.{SemanticComponentIdentity}
use locus.Parser.{
  Bytes, longest_delimiter_prefix_suffix, drop, max_delimiter_bytes, validate_delimiters,
}
use locus.Parser.Find.{length-drop, longest-le_delimiters}
use locus.Parser.Validated.{IsValidated, validate_delimiters-IsValidated}
use locus.Parser.Reasoning.{
  TaggedReasoningParserDefinition, TaggedReasoningParserState, ReasoningMode, ReasoningSegment,
  Pushed, new_reasoning, delimiter, forbidden, emit, push,
}
use locus.Parser.Reasoning.Returns.{Runs, stop, next, push_loop-Runs, round-done}

new_reasoning-IsValidated :
    (identity : SemanticComponentIdentity) (start end : Bytes)
    (def : TaggedReasoningParserDefinition)
    → new_reasoning identity start end ≡ ok def
    → IsValidated def.start_delimiter def.end_delimiter
unfolding new_reasoning
new_reasoning-IsValidated identity start end def e =
    elim (Result-cases (validate_delimiters start end)) [
      | inr (x, bad) ↦ absurd (ground arith)
      | inl (u, good) ↦
          let made : TaggedReasoningParserDefinition = record {
            identity = identity;
            start_delimiter = start;
            end_delimiter = end;
          } in
          let same : made ≡ def = ground arith in
          subst
            (λ (d : TaggedReasoningParserDefinition). IsValidated d.start_delimiter d.end_delimiter)
            same (validate_delimiters-IsValidated start end good)
    ]

module _ (def : TaggedReasoningParserDefinition)
    (v : IsValidated def.start_delimiter def.end_delimiter) where
  delimiter_short : (m : ReasoningMode) → length (delimiter def m) ≤ max_delimiter_bytes
  delimiter_short ReasoningMode.text = v.start_short
  delimiter_short ReasoningMode.reasoning = v.end_short

  forbidden_short : (m : ReasoningMode) → length (forbidden def m) ≤ max_delimiter_bytes
  forbidden_short ReasoningMode.text = v.end_short
  forbidden_short ReasoningMode.reasoning = v.start_short

  emit-short :
      (st st' : TaggedReasoningParserState) (output out : List ReasoningSegment)
      → emit def st output ≡ (st', ok out)
      → length st'.pending ≤ max_delimiter_bytes
  unfolding emit
  emit-short st st' output out e =
      let d = delimiter def st.mode in
      let f = forbidden def st.mode in
      let k = length st.pending - longest_delimiter_prefix_suffix st.pending d f in
      let left : length (drop k st.pending) ≡ length st'.pending =
        ap (λ (p : Pushed). length p.0.pending) e in
      omega (
        arith,
        left,
        length-drop k st.pending,
        longest-le_delimiters st.pending d f,
        delimiter_short st.mode,
        forbidden_short st.mode,
      )

  Runs-short :
      (st st' : TaggedReasoningParserState) (output out : List ReasoningSegment)
      → Runs def st output (st', ok out)
      → length st'.pending ≤ max_delimiter_bytes
  Runs-short st st' output out (stop _ _ _ e) =
      let (_, _, em) = round-done def st st' output out e in emit-short st st' output out em
  Runs-short st st' output out (next _ _ _ s o e run) = Runs-short s st' o out run

-- After a successful call, a reasoning parser that `new_reasoning` made holds back at most 256 bytes.
pub push-pending_bounds :
    (identity : SemanticComponentIdentity) (start end delta : Bytes)
    (def : TaggedReasoningParserDefinition) (st st' : TaggedReasoningParserState)
    (out : List ReasoningSegment)
    → new_reasoning identity start end ≡ ok def
    → push def st delta ≡ some (st', ok out)
    → length st'.pending ≤ max_delimiter_bytes
unfolding push
push-pending_bounds identity start end delta def st st' out made e =
    let joined : TaggedReasoningParserState = record st { pending = st.pending ++ delta } in
    Runs-short def (new_reasoning-IsValidated identity start end def made) joined st' [] out
      (push_loop-Runs def (suc (length joined.pending)) joined [] (st', ok out) e)
