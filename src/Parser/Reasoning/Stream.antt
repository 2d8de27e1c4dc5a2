-- ===== src/Parser/Reasoning/Stream.antt =====
-- crates/parser/src/lib.rs: a stream of calls of the reasoning parser does what one call on the whole text
-- does.
use locus.Base.{ℕ, ◌≤◌, ◌≡◌, refl, sym, ap, ◌∙◌, some, none, List, [], ◌∷◌, ◌++◌, arith}
use locus.Base.Lists.{length}
use locus.Base.Results.{ok, err}
use locus.Parser.{Bytes, find}
use locus.Parser.Reasoning.{
  TaggedReasoningParserDefinition, TaggedReasoningParserState, ReasoningSegment, ReasoningMode,
  Pushed, reasoning_state, push,
}
use locus.Parser.Reasoning.Returns.{HasDelimiters}
use locus.Parser.Reasoning.Written.{IsFed, fresh, fed, written, written-append}
use locus.Parser.Reasoning.Growth.{IsApart}
use locus.Parser.Reasoning.Shift.{Same}
use locus.Parser.Reasoning.Chunks.{push-push}

nothing_found : (d : Bytes) → 1 ≤ length d → find [] d ≡ none
unfolding find
nothing_found [] h = absurd (omega arith)
nothing_found (a ∷ d) h = refl

module _ (def : TaggedReasoningParserDefinition) (h : HasDelimiters def) where
  push-nothing : push def reasoning_state [] ≡ some (reasoning_state, ok [])
  unfolding push reasoning_state
  push-nothing =
      let none_starts = nothing_found def.start_delimiter h.start_nonempty in
      let none_ends = nothing_found def.end_delimiter h.end_nonempty in ground arith

  after-Same :
      (w : List (ReasoningMode × ℕ)) (st : TaggedReasoningParserState)
      (more : List ReasoningSegment) (q : Pushed)
      → Same w (st, ok more) q
      → (o : List ReasoningSegment) × (q ≡ (st, ok o)) × (w ++ written more ≡ written o)
  after-Same w st more (s, ok o) (same, e) =
      (o, ap (λ (x : TaggedReasoningParserState). (x, ok o)) (sym same), e)
  after-Same w st more (s, err e) h = absurd h

  -- However a text is cut into calls that succeed, they leave the state that one call with the whole text
  -- leaves, and return the same bytes, each with its section. Neither delimiter may be empty or contain
  -- the other.
  pub IsFed-push :
      {input : Bytes} {out : List ReasoningSegment} {st : TaggedReasoningParserState}
      → IsApart def
      → IsFed def input out st
      → (o : List ReasoningSegment) × (push def reasoning_state input ≡ some (st, ok o))
        × (written out ≡ written o)
  IsFed-push a fresh = ([], push-nothing, refl)
  IsFed-push a (fed {input} {out} {st} delta more st' f e) =
      let (o, whole, same) = IsFed-push a f in
      let (q, both, agrees) =
        push-push def reasoning_state st input delta o (st', ok more) h a whole e in
      let (o', eq, joined) = after-Same (written o) st' more q agrees in
      (
        o',
        both ∙ ap (λ (p : Pushed). some p) eq,
        written-append out more
            ∙ ap (λ (w : List (ReasoningMode × ℕ)). w ++ written more) same
            ∙ joined,
      )
