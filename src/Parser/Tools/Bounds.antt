-- ===== src/Parser/Tools/Bounds.antt =====
-- crates/parser/src/lib.rs: the tool parser holds back a bounded text from one call to the next.
use locus.Base.{
  ℕ, ◌-◌, ◌≤◌, ◌≡◌, refl, subst, max, some, List, [], ◌++◌, arith, inl, inr, Bool-cases, nat_beq,
}
use locus.Base.Lists.{length}
use locus.Base.Results.{ok, err, Result-cases}
use locus.Core.Identity.{SemanticComponentIdentity}
use locus.Parser.{Bytes, longest_delimiter_prefix_suffix, max_delimiter_bytes, validate_delimiters}
use locus.Parser.Find.{length-drop, longest-le_delimiters}
use locus.Parser.Validated.{IsValidated, validate_delimiters-IsValidated}
use locus.Parser.Tools.{
  Json, TaggedJsonToolParserDefinition, TaggedJsonToolParserState, ToolSegment, ToolPushed,
  new_tools, emit_text, push,
}
use locus.Parser.Tools.Returns.{
  HasDelimiters, Ends, failed, kept_text, kept_call, goes_on, push-Ends,
}

record IsNew (start end : Bytes) (max_buffered_bytes : ℕ) (def : TaggedJsonToolParserDefinition)
    : Type 0 where
  delimiters : IsValidated def.start_delimiter def.end_delimiter
  limit : def.max_buffered_bytes ≡ max_buffered_bytes

new_tools-IsNew :
    (identity : SemanticComponentIdentity) (start end : Bytes) (max_buffered_bytes : ℕ)
    (def : TaggedJsonToolParserDefinition)
    → new_tools identity start end max_buffered_bytes ≡ ok def
    → IsNew start end max_buffered_bytes def
unfolding new_tools
new_tools-IsNew identity start end max_buffered_bytes def e =
    elim (Result-cases (validate_delimiters start end)) [
      | inr (x, bad) ↦ absurd (ground arith)
      | inl (u, good) ↦ elim (Bool-cases (nat_beq max_buffered_bytes 0)) [
        | inl none_allowed ↦ absurd (ground arith)
        | inr some_allowed ↦
            let made : TaggedJsonToolParserDefinition = record {
              identity = identity;
              start_delimiter = start;
              end_delimiter = end;
              max_buffered_bytes = max_buffered_bytes;
            } in
            let same : made ≡ def = ground arith in
            subst (λ (d : TaggedJsonToolParserDefinition). IsNew start end max_buffered_bytes d)
              same
              (record { delimiters = validate_delimiters-IsValidated start end good; limit = refl })
      ]
    ]

-- The bound on what a call leaves, where it succeeds.
abbrev Within : ℕ → ToolPushed → Type 0
Within limit (st, err e) = Unit
Within limit (st, ok out) = length st.pending ≤ limit

module _ (json : Json) (def : TaggedJsonToolParserDefinition) where
  Ends-Within :
      (h : HasDelimiters def) (limit : ℕ) (output : List ToolSegment)
      (st : TaggedJsonToolParserState) (p : ToolPushed)
      → max (length def.start_delimiter) (length def.end_delimiter) ≤ limit
      → def.max_buffered_bytes ≤ limit
      → Ends json def h st output p
      → Within limit p
  unfolding emit_text
  Ends-Within h limit output st p d b (failed _ _ s e) = tt
  Ends-Within h limit output st p d b (kept_text _ _ m missing) =
      let g = longest_delimiter_prefix_suffix st.pending def.start_delimiter def.end_delimiter in
      omega (
        arith,
        length-drop (length st.pending - g) st.pending,
        longest-le_delimiters st.pending def.start_delimiter def.end_delimiter,
      )
  Ends-Within h limit output st p d b (kept_call _ _ m fits) = omega arith
  Ends-Within h limit output st p d b (goes_on _ _ _ s o g run) = Ends-Within h limit o s p d b run

-- After a successful call, a tool parser that `new_tools` made holds back at most the configured number of
-- bytes, or 256 if that is more.
pub tools-pending_bounds :
    (json : Json) (identity : SemanticComponentIdentity) (start end delta : Bytes)
    (max_buffered_bytes : ℕ) (def : TaggedJsonToolParserDefinition)
    (st st' : TaggedJsonToolParserState) (out : List ToolSegment)
    → new_tools identity start end max_buffered_bytes ≡ ok def
    → push json def st delta ≡ some (st', ok out)
    → length st'.pending ≤ max max_delimiter_bytes max_buffered_bytes
tools-pending_bounds json identity start end delta max_buffered_bytes def st st' out made e =
    let new = new_tools-IsNew identity start end max_buffered_bytes def made in
    let h : HasDelimiters def = record {
      start_nonempty = new.delimiters.start_nonempty;
      end_nonempty = new.delimiters.end_nonempty;
    } in
    let (p, e', run) = push-Ends json def h st delta in
    let same : p ≡ (st', ok out) = ground arith in
    subst (λ (p : ToolPushed). Within (max max_delimiter_bytes max_buffered_bytes) p) same
      (Ends-Within json def h (max max_delimiter_bytes max_buffered_bytes) []
        (record st { pending = st.pending ++ delta }) p
        (omega (arith, new.delimiters.start_short, new.delimiters.end_short))
        (omega (arith, new.limit)) run)
