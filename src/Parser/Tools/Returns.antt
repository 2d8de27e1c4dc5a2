-- ===== src/Parser/Tools/Returns.antt =====
-- crates/parser/src/lib.rs: the tool parser's `push` always returns.
use locus.Base.{
  ℕ, zero, suc, ◌+◌, ◌-◌, ◌≤◌, ◌<◌, ◌≡◌, refl, Option, none, some, List, [], ◌∷◌, ◌++◌, arith,
  Bool-cases, Option-cases, inl, inr, ◌⊎◌, ltb, subst, ap,
}
use locus.Base.Lists.{length}
use locus.Base.Results.{ok, err, Result-cases}
use locus.Parser.{
  Bytes, ParserError, unexpected_delimiter, call_too_long, find, take, drop, is_before,
}
use locus.Parser.Find.{find-length, find-split_from, length-drop, length-append_bytes}
use locus.Parser.Tools.{
  Json, TaggedJsonToolParserDefinition, TaggedJsonToolParserState, ToolMode, ToolSegment,
  ToolPushed, Call, parse_tool_envelope, complete_from, complete_call, done, again, emit_text,
  text_round, tool_round, round, push_loop, push, push_text,
}

-- Both delimiters have a first byte.
pub record HasDelimiters (def : TaggedJsonToolParserDefinition) : Type 0 where
  pub start_nonempty : 1 ≤ length def.start_delimiter
  pub end_nonempty : 1 ≤ length def.end_delimiter

module _ (json : Json) (def : TaggedJsonToolParserDefinition) (h : HasDelimiters def) where
  complete_from_returns :
      (fuel : ℕ) (pending : Bytes) (search_from : ℕ)
      → length pending - search_from < fuel
      → (c : Option Call) × (complete_from json def fuel pending search_from ≡ some c)
  unfolding complete_from
  complete_from_returns zero pending search_from enough = absurd (omega arith)
  complete_from_returns (suc fuel) pending search_from enough =
      elim (Option-cases (find (drop search_from pending) def.end_delimiter)) [
        | inl e ↦ (none, ground arith)
        | inr (n, e) ↦
            elim (Result-cases (parse_tool_envelope json (take (search_from + n) pending))) [
              | inl ((name, arguments), e') ↦
                  (some (search_from + n, name, arguments), rw (complete_from, e, e') refl)
              | inr (x, e') ↦
                  let (c, r) =
                    complete_from_returns fuel pending (search_from + n + length def.end_delimiter)
                      (omega (
                        arith,
                        h.end_nonempty,
                        length-drop search_from pending,
                        find-length (drop search_from pending) def.end_delimiter n e,
                      )) in
                  (c, rw (complete_from, e, e') r)
            ]
      ]

  -- What `complete_call` finds is an envelope with the end delimiter behind it.
  pub complete_from-found :
      (fuel : ℕ) (pending : Bytes) (search_from n : ℕ) (name arguments : Bytes)
      → complete_from json def fuel pending search_from ≡ some (some (n, name, arguments))
      → (parse_tool_envelope json (take n pending) ≡ ok (name, arguments))
        × (take n pending ++ (def.end_delimiter ++ drop (n + length def.end_delimiter) pending)
            ≡ pending)
  unfolding complete_from
  complete_from-found zero pending search_from n name arguments e = absurd (ground arith)
  complete_from-found (suc fuel) pending search_from n name arguments e =
      elim (Option-cases (find (drop search_from pending) def.end_delimiter)) [
        | inl missing ↦ absurd (ground arith)
        | inr (k, at) ↦
            elim (Result-cases (parse_tool_envelope json (take (search_from + k) pending))) [
              | inr (x, bad) ↦
                  complete_from-found fuel pending (search_from + k + length def.end_delimiter) n
                    name arguments (ground arith)
              | inl (named, good) ↦
                  let same : (search_from + k, named.0, named.1) ≡ (n, name, arguments) =
                    ground arith in
                  subst
                    (λ (c : Call).
                      (parse_tool_envelope json (take c.0 pending) ≡ ok (c.1, c.2))
                      × (take c.0 pending
                            ++ (def.end_delimiter ++ drop (c.0 + length def.end_delimiter) pending)
                          ≡ pending))
                    same
                    (
                      good,
                      find-split_from search_from pending def.end_delimiter k h.end_nonempty at,
                    )
            ]
      ]

  pub complete_call_returns :
      (pending : Bytes) → (c : Option Call) × (complete_call json def pending ≡ some c)
  unfolding complete_call
  complete_call_returns pending =
      complete_from_returns (suc (length pending)) pending 0 (omega arith)

  mode-cases : (m : ToolMode) → (m ≡ ToolMode.text) ⊎ (m ≡ ToolMode.tool)
  mode-cases ToolMode.text = inl refl
  mode-cases ToolMode.tool = inr refl

  -- A round that another follows has drained a delimiter: it held the text before it, and the rest.
  pub data Goes (st : TaggedJsonToolParserState) (output : List ToolSegment)
      : TaggedJsonToolParserState → List ToolSegment → Type 0 where
    enters :
        (n : ℕ)
        → st.mode ≡ ToolMode.text
        → find st.pending def.start_delimiter ≡ some n
        → Goes st output
            (record {
              mode = ToolMode.tool;
              pending = drop (n + length def.start_delimiter) st.pending;
            })
            (push_text output (take n st.pending))
    leaves :
        (n : ℕ) (name arguments : Bytes)
        → st.mode ≡ ToolMode.tool
        → n ≤ def.max_buffered_bytes
        → parse_tool_envelope json (take n st.pending) ≡ ok (name, arguments)
        → take n st.pending ++ (def.end_delimiter ++ drop (n + length def.end_delimiter) st.pending)
          ≡ st.pending
        → Goes st output
            (record {
              mode = ToolMode.text;
              pending = drop (n + length def.end_delimiter) st.pending;
            })
            (output ++ ToolSegment.call name arguments ∷ [])

  -- What a round comes to.
  pub data Went (st : TaggedJsonToolParserState) (output : List ToolSegment) : Type 0 where
    goes :
        (st' : TaggedJsonToolParserState) (output' : List ToolSegment)
        → Goes st output st' output'
        → round json def st output ≡ some (again st' output')
        → Went st output
    fails :
        (st' : TaggedJsonToolParserState) (e : ParserError)
        → round json def st output ≡ some (done (st', err e))
        → Went st output
    keeps_text :
        st.mode ≡ ToolMode.text
        → find st.pending def.start_delimiter ≡ none
        → round json def st output ≡ some (done (emit_text json def st.pending output))
        → Went st output
    keeps_call :
        st.mode ≡ ToolMode.tool
        → length st.pending ≤ def.max_buffered_bytes
        → round json def st output ≡ some (done (st, ok output))
        → Went st output

  tool-Went :
      (st : TaggedJsonToolParserState) (output : List ToolSegment) (c : Option Call)
      → st.mode ≡ ToolMode.tool
      → complete_call json def st.pending ≡ some c
      → Went st output
  unfolding round tool_round complete_call
  tool-Went st output none m e =
      elim (Bool-cases (ltb def.max_buffered_bytes (length st.pending))) [
        | inl over ↦
            fails (record { mode = ToolMode.tool; pending = st.pending }) call_too_long
              (rw (round, m, e, over) refl)
        | inr fits ↦ keeps_call m (ground arith) (rw (round, m, e, fits) refl)
      ]
  tool-Went st output (some (n, name, arguments)) m e =
      elim (Bool-cases (ltb def.max_buffered_bytes n)) [
        | inl over ↦
            fails (record { mode = ToolMode.tool; pending = st.pending }) call_too_long
              (rw (round, m, e, over) refl)
        | inr fits ↦
            let (good, split) =
              complete_from-found (suc (length st.pending)) st.pending 0 n name arguments e in
            goes
              (record {
                mode = ToolMode.text;
                pending = drop (n + length def.end_delimiter) st.pending;
              })
              (output ++ ToolSegment.call name arguments ∷ [])
              (leaves n name arguments m (ground arith) good split) (rw (round, m, e, fits) refl)
      ]

  pub round-Went : (st : TaggedJsonToolParserState) (output : List ToolSegment) → Went st output
  unfolding round text_round tool_round
  round-Went st output = elim (mode-cases st.mode) [
    | inl m ↦
        elim (Bool-cases
          (is_before (find st.pending def.end_delimiter) (find st.pending def.start_delimiter))) [
            | inl early ↦
                fails (record { mode = ToolMode.text; pending = st.pending }) unexpected_delimiter
                  (rw (round, m, text_round, early) refl)
            | inr late ↦ elim (Option-cases (find st.pending def.start_delimiter)) [
              | inl missing ↦ keeps_text m missing (rw (round, m, text_round, late, missing) refl)
              | inr (n, at) ↦
                  goes
                    (record {
                      mode = ToolMode.tool;
                      pending = drop (n + length def.start_delimiter) st.pending;
                    })
                    (push_text output (take n st.pending)) (enters n m at)
                    (rw (round, m, text_round, late, at) refl)
            ]
          ]
    | inr m ↦ let (c, e) = complete_call_returns st.pending in tool-Went st output c m e
  ]

  Goes-shorter :
      (st st' : TaggedJsonToolParserState) (output output' : List ToolSegment)
      → Goes st output st' output'
      → length st'.pending < length st.pending
  Goes-shorter st st' output output' (enters n m at) = omega (
    arith,
    h.start_nonempty,
    length-drop (n + length def.start_delimiter) st.pending,
    find-length st.pending def.start_delimiter n at,
  )
  Goes-shorter st st' output output' (leaves n name arguments m fits good split) =
      let rest = drop (n + length def.end_delimiter) st.pending in
      omega (
        arith,
        h.end_nonempty,
        ap length split,
        length-append_bytes (take n st.pending) (def.end_delimiter ++ rest),
        length-append_bytes def.end_delimiter rest,
      )

  -- How the loop comes to its end.
  pub data Ends : TaggedJsonToolParserState → List ToolSegment → ToolPushed → Type 0 where
    failed :
        (st : TaggedJsonToolParserState) (output : List ToolSegment)
        (st' : TaggedJsonToolParserState) (e : ParserError)
        → Ends st output (st', err e)
    kept_text :
        (st : TaggedJsonToolParserState) (output : List ToolSegment)
        → st.mode ≡ ToolMode.text
        → find st.pending def.start_delimiter ≡ none
        → Ends st output (emit_text json def st.pending output)
    kept_call :
        (st : TaggedJsonToolParserState) (output : List ToolSegment)
        → st.mode ≡ ToolMode.tool
        → length st.pending ≤ def.max_buffered_bytes
        → Ends st output (st, ok output)
    goes_on :
        (st : TaggedJsonToolParserState) (output : List ToolSegment) (p : ToolPushed)
        (st' : TaggedJsonToolParserState) (output' : List ToolSegment)
        → Goes st output st' output'
        → Ends st' output' p
        → Ends st output p

  push_loop-Ends :
      (fuel : ℕ) (st : TaggedJsonToolParserState) (output : List ToolSegment)
      → length st.pending < fuel
      → (p : ToolPushed) × (push_loop json def fuel st output ≡ some p) × Ends st output p
  unfolding push_loop
  push_loop-Ends zero st output enough = absurd (omega arith)
  push_loop-Ends (suc fuel) st output enough = elim (round-Went st output) [
    | goes st' output' g e ↦
        let (p, e', r) =
          push_loop-Ends fuel st' output' (omega (arith, Goes-shorter st st' output output' g)) in
        (p, rw (push_loop, e) e', goes_on st output p st' output' g r)
    | fails st' x e ↦ ((st', err x), rw (push_loop, e) refl, failed st output st' x)
    | keeps_text m missing e ↦ (
      emit_text json def st.pending output,
      rw (push_loop, e) refl,
      kept_text st output m missing,
    )
    | keeps_call m fits e ↦ ((st, ok output), rw (push_loop, e) refl, kept_call st output m fits)
  ]

  pub push-Ends :
      (st : TaggedJsonToolParserState) (delta : Bytes)
      → (p : ToolPushed) × (push json def st delta ≡ some p)
        × Ends (record st { pending = st.pending ++ delta }) [] p
  unfolding push
  push-Ends st delta =
      push_loop-Ends (suc (length (st.pending ++ delta)))
        (record st { pending = st.pending ++ delta }) [] (omega arith)

  -- When neither delimiter is empty, the tool parser's `push` returns, whatever its state, the new text
  -- and the JSON library.
  pub tools-push_returns :
      (st : TaggedJsonToolParserState) (delta : Bytes)
      → (p : ToolPushed) × (push json def st delta ≡ some p)
  tools-push_returns st delta = let (p, e, r) = push-Ends st delta in (p, e)
