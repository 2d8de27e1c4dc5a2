-- ===== src/Parser/Reasoning/Returns.antt =====
-- crates/parser/src/lib.rs: the reasoning parser's `push` always returns, and never holds back a whole
-- delimiter.
use locus.Base.{
  ℕ, zero, suc, ◌+◌, ◌≤◌, ◌<◌, ◌≡◌, refl, false, Option, none, some, List, [], ◌++◌, arith,
  Bool-cases, Option-cases, inl, inr, ◌⊎◌, subst,
}
use locus.Base.Lists.{length}
use locus.Base.Results.{Result, ok, err, Result-cases}
use locus.Parser.{Bytes, ParserError, find, take, drop, is_before}
use locus.Parser.Find.{find-length, length-drop}
use locus.Parser.Reasoning.{
  TaggedReasoningParserDefinition, TaggedReasoningParserState, ReasoningSegment, ReasoningMode,
  Pushed, push_reasoning_segment, delimiter, forbidden, emit, switch, drained, Round, done, again,
  after_switch, round_at, round, push_loop, push,
}

-- Both delimiters have a first byte.
pub record HasDelimiters (def : TaggedReasoningParserDefinition) : Type 0 where
  pub start_nonempty : 1 ≤ length def.start_delimiter
  pub end_nonempty : 1 ≤ length def.end_delimiter

module _ (def : TaggedReasoningParserDefinition) where
  -- How a call of the loop runs: rounds up to one that ends it.
  pub data Runs : TaggedReasoningParserState → List ReasoningSegment → Pushed → Type 0 where
    stop :
        (st : TaggedReasoningParserState) (output : List ReasoningSegment) (p : Pushed)
        → round def st output ≡ done p
        → Runs st output p
    next :
        (st : TaggedReasoningParserState) (output : List ReasoningSegment) (p : Pushed)
        (st' : TaggedReasoningParserState) (output' : List ReasoningSegment)
        → round def st output ≡ again st' output'
        → Runs st' output' p
        → Runs st output p

  pub Round-cases :
      (r : Round def)
      → ((p : Pushed) × (r ≡ done p))
        ⊎ ((st : TaggedReasoningParserState) × (output : List ReasoningSegment) × (r
              ≡ again st output))
  Round-cases (done p) = inl (p, refl)
  Round-cases (again st output) = inr (st, output, refl)

  pub push_loop-Runs :
      (fuel : ℕ) (st : TaggedReasoningParserState) (output : List ReasoningSegment) (p : Pushed)
      → push_loop def fuel st output ≡ some p
      → Runs st output p
  unfolding push_loop
  push_loop-Runs zero st output p h = absurd (ground arith)
  push_loop-Runs (suc fuel) st output p h = elim (Round-cases (round def st output)) [
    | inl (q, e) ↦ stop st output p (ground arith)
    | inr (st', output', e) ↦
        next st output p st' output' e (push_loop-Runs fuel st' output' p (ground arith))
  ]

  pub switch-pending :
      (m : ReasoningMode) (st st' : TaggedReasoningParserState)
      → switch def m st ≡ ok st'
      → st'.pending ≡ st.pending
  unfolding switch
  switch-pending ReasoningMode.text st st' h = ground arith
  switch-pending ReasoningMode.reasoning st st' h = ground arith

  after_switch-again :
      (left st' : TaggedReasoningParserState) (output output' : List ReasoningSegment)
      (r : Result ParserError TaggedReasoningParserState)
      → after_switch def left output r ≡ again st' output'
      → (r ≡ ok st') × (output' ≡ output)
  after_switch-again left st' output output' (ok s) h = ground arith
  after_switch-again left st' output output' (err e) h = absurd (ground arith)

  round_at-again :
      (st st' : TaggedReasoningParserState) (output output' : List ReasoningSegment)
      (d f : Option ℕ)
      → round_at def st output d f ≡ again st' output'
      → (n : ℕ) × (d ≡ some n)
        × (is_before f d ≡ false)
        × (switch def st.mode (drained def n st) ≡ ok st')
        × (output' ≡ push_reasoning_segment output st.mode (take n st.pending))
  unfolding round_at
  round_at-again st st' output output' d f h = elim (Bool-cases (is_before f d)) [
    | inl before ↦ absurd (ground arith)
    | inr after ↦ elim (Option-cases d) [
      | inl e ↦ absurd (ground arith)
      | inr (n, e) ↦
          let (s, o) =
            after_switch-again (drained def n st) st'
              (push_reasoning_segment output st.mode (take n st.pending)) output'
              (switch def st.mode (drained def n st)) (ground arith) in
          (n, e, after, s, o)
    ]
  ]

  -- Another round follows only a delimiter that was found and drained.
  pub round-again :
      (st st' : TaggedReasoningParserState) (output output' : List ReasoningSegment)
      → round def st output ≡ again st' output'
      → (n : ℕ) × (find st.pending (delimiter def st.mode) ≡ some n)
        × (is_before (find st.pending (forbidden def st.mode)) (some n) ≡ false)
        × (switch def st.mode (drained def n st) ≡ ok st')
        × (output' ≡ push_reasoning_segment output st.mode (take n st.pending))
        × (st'.pending ≡ drop (n + length (delimiter def st.mode)) st.pending)
  unfolding round
  round-again st st' output output' h =
      let (n, e, before, s, o) =
        round_at-again st st' output output' (find st.pending (delimiter def st.mode))
          (find st.pending (forbidden def st.mode)) h in
      (
        n,
        e,
        subst (λ (d : Option ℕ). is_before (find st.pending (forbidden def st.mode)) d ≡ false) e
            before,
        s,
        o,
        switch-pending st.mode (drained def n st) st' s,
      )

  round_at-done :
      (st st' : TaggedReasoningParserState) (output out : List ReasoningSegment) (d f : Option ℕ)
      → round_at def st output d f ≡ done (st', ok out)
      → (d ≡ none) × (f ≡ none) × (emit def st output ≡ (st', ok out))
  unfolding round_at
  round_at-done st st' output out none none h = (refl, refl, ground arith)
  round_at-done st st' output out none (some m) h = absurd (ground arith)
  round_at-done st st' output out (some n) f h = elim (Bool-cases (is_before f (some n))) [
    | inl before ↦ absurd (ground arith)
    | inr after ↦ elim (Result-cases (switch def st.mode (drained def n st))) [
      | inl (s, e) ↦ absurd (ground arith)
      | inr (x, e) ↦ absurd (ground arith)
    ]
  ]

  -- The loop ends well only where neither delimiter was found.
  pub round-done :
      (st st' : TaggedReasoningParserState) (output out : List ReasoningSegment)
      → round def st output ≡ done (st', ok out)
      → (find st.pending (delimiter def st.mode) ≡ none)
        × (find st.pending (forbidden def st.mode) ≡ none)
        × (emit def st output ≡ (st', ok out))
  unfolding round
  round-done st st' output out h =
      round_at-done st st' output out (find st.pending (delimiter def st.mode))
        (find st.pending (forbidden def st.mode)) h

  delimiter-nonempty : (m : ReasoningMode) → HasDelimiters def → 1 ≤ length (delimiter def m)
  delimiter-nonempty ReasoningMode.text h = h.start_nonempty
  delimiter-nonempty ReasoningMode.reasoning h = h.end_nonempty

  again-shorter :
      (st st' : TaggedReasoningParserState) (output output' : List ReasoningSegment)
      → HasDelimiters def
      → round def st output ≡ again st' output'
      → length st'.pending < length st.pending
  again-shorter st st' output output' h e =
      let (n, at, _, _, _, left) = round-again st st' output output' e in
      rw left (
        omega (
          arith,
          length-drop (n + length (delimiter def st.mode)) st.pending,
          find-length st.pending (delimiter def st.mode) n at,
          delimiter-nonempty st.mode h,
        ))

  push_loop-returns :
      (fuel : ℕ) (st : TaggedReasoningParserState) (output : List ReasoningSegment)
      → HasDelimiters def
      → length st.pending < fuel
      → (p : Pushed) × (push_loop def fuel st output ≡ some p)
  unfolding push_loop
  push_loop-returns zero st output h enough = absurd (omega arith)
  push_loop-returns (suc fuel) st output h enough = elim (Round-cases (round def st output)) [
    | inl (p, e) ↦ (p, ground arith)
    | inr (st', output', e) ↦
        let (p, e') =
          push_loop-returns fuel st' output' h
            (omega (arith, again-shorter st st' output output' h e)) in
        (p, ground arith)
  ]

  -- When neither delimiter is empty, `push` returns, whatever its state and the new text.
  pub push_returns :
      (st : TaggedReasoningParserState) (delta : Bytes)
      → HasDelimiters def
      → (p : Pushed) × (push def st delta ≡ some p)
  unfolding push
  push_returns st delta h =
      push_loop-returns (suc (length (st.pending ++ delta)))
        (record st { pending = st.pending ++ delta }) [] h (omega arith)
