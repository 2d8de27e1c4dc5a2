-- ===== src/Parser/Reasoning/Chunks.antt =====
-- crates/parser/src/lib.rs: how the text is cut into calls of the reasoning parser's `push` makes no
-- difference.
use mathlib.Core.List.{append_assoc, append-nil}
use locus.Base.{ℕ, suc, ◌-◌, ◌≤◌, ◌≡◌, refl, sym, ap, ◌∙◌, subst, none, some, List, [], ◌++◌, arith}
use locus.Base.Lists.{length}
use locus.Base.Results.{Result, ok, err}
use locus.Parser.{Bytes, ParserError, find, take, drop, longest_delimiter_prefix_suffix}
use locus.Parser.Find.{
  length-drop, find_shift, longest_shift, longest-IsClear, longest-le, take-append-drop,
}
use locus.Parser.Reasoning.{
  TaggedReasoningParserDefinition, TaggedReasoningParserState, ReasoningSegment, ReasoningMode,
  Pushed, push_reasoning_segment, delimiter, forbidden, emit, done, again, round, push,
}
use locus.Parser.Reasoning.Returns.{Runs, stop, next, HasDelimiters, push_loop-Runs, push_returns}
use locus.Parser.Reasoning.Written.{tagged, written, written-push}
use locus.Parser.Reasoning.Shift.{Same, Runs-after, round_shift, holding}
use locus.Parser.Reasoning.Growth.{IsApart, more, fails, goes_on, waits, grown}

module _ (def : TaggedReasoningParserDefinition) where
  -- A run of the loop is settled by its first round.
  Runs-done :
      (st : TaggedReasoningParserState) (o : List ReasoningSegment) (p q : Pushed)
      → Runs def st o q
      → round def st o ≡ done p
      → q ≡ p
  Runs-done st o p q (stop _ _ _ e) h = ground arith
  Runs-done st o p q (next _ _ _ s1 o1 e r) h = absurd (ground arith)

  Runs-again :
      (st s1 : TaggedReasoningParserState) (o o1 : List ReasoningSegment) (q : Pushed)
      → Runs def st o q
      → round def st o ≡ again s1 o1
      → Runs def s1 o1 q
  Runs-again st s1 o o1 q (stop _ _ _ e) h = absurd (ground arith)
  Runs-again st s1 o o1 q (next _ _ _ s2 o2 e r) h =
      let same : s2 ≡ s1 = ground arith in
      let out : o2 ≡ o1 = ground arith in
      subst (λ (s : TaggedReasoningParserState). Runs def s o1 q) same
        (subst (λ (z : List ReasoningSegment). Runs def s2 z q) out r)

  -- What the first call's result says of the one call with the whole text.
  abbrev Foretells : Bytes → Pushed → Pushed → Type 0
  Foretells y (s, err e) q = q.1 ≡ err e
  Foretells y (s, ok o1) q = (q2 : Pushed) → Runs def (more def y s) [] q2 → Same (written o1) q2 q

  emit-Foretells :
      (y : Bytes) (st : TaggedReasoningParserState) (o o' : List ReasoningSegment) (q : Pushed)
      → find st.pending (delimiter def st.mode) ≡ none
      → find st.pending (forbidden def st.mode) ≡ none
      → written o ≡ written o'
      → Runs def (more def y st) o' q
      → Foretells y (emit def st o) q
  unfolding emit written
  emit-Foretells y st o o' q missing absent same whole =
      let d = delimiter def st.mode in
      let f = forbidden def st.mode in
      let k = length st.pending - longest_delimiter_prefix_suffix st.pending d f in
      let x = take k st.pending in
      let s = drop k st.pending in
      let split = take-append-drop k st.pending in
      let short : longest_delimiter_prefix_suffix (x ++ s) d f ≤ length s =
        rw split (omega (arith, length-drop k st.pending, longest-le st.pending d f)) in
      let (clear_d, clear_f) = longest-IsClear x s d f short in
      let missing' : find (x ++ s) d ≡ none = rw split missing in
      let absent' : find (x ++ s) f ≡ none = rw split absent in
      let joined : x ++ (s ++ y) ≡ st.pending ++ y =
        sym (append_assoc x s y) ∙ ap (λ (z : Bytes). z ++ y) split in
      λ q2 r2.
        Runs-after def (written (push_reasoning_segment o st.mode x)) (holding def st (s ++ y))
          (holding def st (x ++ (s ++ y))) [] o' q2 q
          (round_shift def (written (push_reasoning_segment o st.mode x)) st x (s ++ y) [] o'
            (find_shift x s y d missing' clear_d) (find_shift x s y f absent' clear_f)
            (longest_shift x s y d f missing' absent' clear_d clear_f)
            (append-nil (written (push_reasoning_segment o st.mode x))
              ∙ written-push o st.mode x
              ∙ ap (λ (w : List (ReasoningMode × ℕ)). w ++ tagged st.mode x) same))
          r2 (subst (λ (z : Bytes). Runs def (holding def st z) o' q) (sym joined) whole)

  Runs-Foretells :
      (y : Bytes) (st : TaggedReasoningParserState) (o o' : List ReasoningSegment) (p q : Pushed)
      → IsApart def
      → written o ≡ written o'
      → Runs def st o p
      → Runs def (more def y st) o' q
      → Foretells y p q
  Runs-Foretells y st o o' p q a same (stop _ _ _ e) whole = elim (grown def y st o o' a) [
    | fails x s s' r r' ↦
        let left : (s, err x) ≡ p = ground arith in
        let all = Runs-done (more def y st) o' (s', err x) q whole r' in
        subst (λ (p : Pushed). Foretells y p q) left (ap (λ (z : Pushed). z.1) all)
    | goes_on s1 o1 o1' r r' w ↦ absurd (ground arith)
    | waits missing absent r ↦
        let left : emit def st o ≡ p = ground arith in
        subst (λ (p : Pushed). Foretells y p q) left
          (emit-Foretells y st o o' q missing absent same whole)
  ]
  Runs-Foretells y st o o' p q a same (next _ _ _ s1 o1 e run) whole =
      elim (grown def y st o o' a) [
        | fails x s s' r r' ↦ absurd (ground arith)
        | waits missing absent r ↦ absurd (ground arith)
        | goes_on s2 o2 o2' r r' w ↦
            let state : s1 ≡ s2 = ground arith in
            let out : o1 ≡ o2 = ground arith in
            Runs-Foretells y s1 o1 o2' p q a (ap written out ∙ w same) run (
              subst (λ (s : TaggedReasoningParserState). Runs def (more def y s) o2' q) (sym state)
                (Runs-again (more def y st) (more def y s2) o' o2' q whole r'))
      ]

  push-Runs :
      (st : TaggedReasoningParserState) (delta : Bytes) (p : Pushed)
      → push def st delta ≡ some p
      → Runs def (more def delta st) [] p
  unfolding push
  push-Runs st delta p h =
      push_loop-Runs def (suc (length (st.pending ++ delta))) (more def delta st) [] p h

  -- A call that succeeds, and a second call, leave the state and the bytes, each with its section,
  -- that one call with both texts leaves; an error of the second call is the one call's error. Neither
  -- delimiter may be empty or contain the other.
  pub push-push :
      (st st1 : TaggedReasoningParserState) (delta delta' : Bytes) (o1 : List ReasoningSegment)
      (q2 : Pushed)
      → HasDelimiters def
      → IsApart def
      → push def st delta ≡ some (st1, ok o1)
      → push def st1 delta' ≡ some q2
      → (q : Pushed) × (push def st (delta ++ delta') ≡ some q) × Same (written o1) q2 q
  push-push st st1 delta delta' o1 q2 h a first second =
      let (q, e) = push_returns def st (delta ++ delta') h in
      let whole =
        subst (λ (z : Bytes). Runs def (holding def st z) [] q)
          (sym (append_assoc st.pending delta delta')) (push-Runs st (delta ++ delta') q e) in
      (
        q,
        e,
        Runs-Foretells delta' (more def delta st) [] [] (st1, ok o1) q a refl
            (push-Runs st delta (st1, ok o1) first) whole q2 (push-Runs st1 delta' q2 second),
      )

  -- A call that fails fails with the same error whatever text comes with it. Neither delimiter may be
  -- empty or contain the other.
  pub push-error_append :
      (st st1 : TaggedReasoningParserState) (delta delta' : Bytes) (e : ParserError)
      → HasDelimiters def
      → IsApart def
      → push def st delta ≡ some (st1, err e)
      → (s : TaggedReasoningParserState) × (push def st (delta ++ delta') ≡ some (s, err e))
  push-error_append st st1 delta delta' e h a first =
      let (q, e') = push_returns def st (delta ++ delta') h in
      let whole =
        subst (λ (z : Bytes). Runs def (holding def st z) [] q)
          (sym (append_assoc st.pending delta delta')) (push-Runs st (delta ++ delta') q e') in
      let same =
        Runs-Foretells delta' (more def delta st) [] [] (st1, err e) q a refl
          (push-Runs st delta (st1, err e) first) whole in
      (q.0, e' ∙ ap (λ (r : Result ParserError (List ReasoningSegment)). some (q.0, r)) same)
