-- ===== src/Parser/Reasoning/Written.antt =====
-- crates/parser/src/lib.rs: the reasoning parser loses, invents and reorders nothing: what it was given
-- is what it has returned, with the delimiters between, and what it still holds back.
use mathlib.Core.List.{append_assoc, append-nil, map-append}
use locus.Base.{
  ℕ, suc, ◌+◌, ◌-◌, ◌≡◌, refl, sym, ap, ◌∙◌, subst, true, false, some, List, [], ◌∷◌, ◌++◌, map,
  arith, ◌⊎◌, Bool-cases, inl, inr, if◌then◌else◌, not,
}
use locus.Base.Lists.{length, is_empty}
use locus.Base.Results.{ok, err}
use locus.Parser.{Bytes, incomplete_delimiter, take, drop, longest_delimiter_prefix_suffix}
use locus.Parser.Find.{find-split, take-append-drop}
use locus.Parser.Reasoning.{
  TaggedReasoningParserDefinition, TaggedReasoningParserState, reasoning_state, ReasoningSegment,
  ReasoningMode, Pushed, push_reasoning_segment, delimiter, forbidden, emit, switch, drained, push,
  finish,
}
use locus.Parser.Reasoning.Returns.{Runs, stop, next, push_loop-Runs, round-again, round-done}

-- The bytes of a section, each with its mode.
abbrev pub tagged : ReasoningMode → Bytes → List (ReasoningMode × ℕ)
tagged m = map (λ b. (m, b))

-- What the segments hold, however they are cut.
unfoldable pub written : List ReasoningSegment → List (ReasoningMode × ℕ)
written [] = []
written (ReasoningSegment.text x ∷ out) = tagged ReasoningMode.text x ++ written out
written (ReasoningSegment.reasoning x ∷ out) = tagged ReasoningMode.reasoning x ++ written out

pub written-append : (a b : List ReasoningSegment) → written (a ++ b) ≡ written a ++ written b
unfolding written
written-append [] b = refl
written-append (ReasoningSegment.text x ∷ a) b = simp (written-append a b, append_assoc)
written-append (ReasoningSegment.reasoning x ∷ a) b = simp (written-append a b, append_assoc)

pub written-push :
    (out : List ReasoningSegment) (m : ReasoningMode) (x : Bytes)
    → written (push_reasoning_segment out m x) ≡ written out ++ tagged m x
unfolding push_reasoning_segment written
written-push out m [] = simp append-nil
written-push out ReasoningMode.text (a ∷ x) =
    simp (written-append out (ReasoningSegment.text (a ∷ x) ∷ []), append-nil)
written-push out ReasoningMode.reasoning (a ∷ x) =
    simp (written-append out (ReasoningSegment.reasoning (a ∷ x) ∷ []), append-nil)

pub tagged-append : (m : ReasoningMode) (x y : Bytes) → tagged m (x ++ y) ≡ tagged m x ++ tagged m y
tagged-append m x y = map-append (λ (b : ℕ). (m, b)) x y

mode-cases : (m : ReasoningMode) → (m ≡ ReasoningMode.text) ⊎ (m ≡ ReasoningMode.reasoning)
mode-cases ReasoningMode.text = inl refl
mode-cases ReasoningMode.reasoning = inr refl

module _ (def : TaggedReasoningParserDefinition) where
  -- The text given so far, the bytes returned for it, and what the state says of it.
  pub data IsParsed (input : Bytes) (out : List (ReasoningMode × ℕ))
      (st : TaggedReasoningParserState) : Type 0 where
    before :
        (t : Bytes)
        → st.mode ≡ ReasoningMode.text
        → st.saw_reasoning ≡ false
        → input ≡ t ++ st.pending
        → out ≡ tagged ReasoningMode.text t
        → IsParsed input out st
    inside :
        (t r : Bytes)
        → st.mode ≡ ReasoningMode.reasoning
        → st.saw_reasoning ≡ true
        → input ≡ t ++ (def.start_delimiter ++ (r ++ st.pending))
        → out ≡ tagged ReasoningMode.text t ++ tagged ReasoningMode.reasoning r
        → IsParsed input out st
    behind :
        (t r u : Bytes)
        → st.mode ≡ ReasoningMode.text
        → st.saw_reasoning ≡ true
        → input ≡ t ++ (def.start_delimiter ++ (r ++ (def.end_delimiter ++ (u ++ st.pending))))
        → out
          ≡ tagged ReasoningMode.text t
            ++ (tagged ReasoningMode.reasoning r ++ tagged ReasoningMode.text u)
        → IsParsed input out st

  -- More of the section that the state is in.
  extend :
      (input x : Bytes) (out out' : List (ReasoningMode × ℕ)) (st st' : TaggedReasoningParserState)
      → IsParsed input out st
      → st'.mode ≡ st.mode
      → st'.saw_reasoning ≡ st.saw_reasoning
      → st.pending ≡ x ++ st'.pending
      → out' ≡ out ++ tagged st.mode x
      → IsParsed input out' st'
  extend input x out out' st st' (before t m s i o) m' s' p o' =
      before (t ++ x) (m' ∙ m) (s' ∙ s)
        (i ∙ ap (λ (y : Bytes). t ++ y) p ∙ sym (append_assoc t x st'.pending))
        (o'
          ∙ ap (λ (y : ReasoningMode). out ++ tagged y x) m
          ∙ ap (λ (y : List (ReasoningMode × ℕ)). y ++ tagged ReasoningMode.text x) o
          ∙ sym (tagged-append ReasoningMode.text t x))
  extend input x out out' st st' (inside t r m s i o) m' s' p o' =
      inside t (r ++ x) (m' ∙ m) (s' ∙ s)
        (i ∙ ap (λ (y : Bytes). t ++ (def.start_delimiter ++ (r ++ y))) p ∙ simp append_assoc)
        (o'
          ∙ ap (λ (y : ReasoningMode). out ++ tagged y x) m
          ∙ ap (λ (y : List (ReasoningMode × ℕ)). y ++ tagged ReasoningMode.reasoning x) o
          ∙ simp (append_assoc, tagged-append))
  extend input x out out' st st' (behind t r u m s i o) m' s' p o' =
      behind t r (u ++ x) (m' ∙ m) (s' ∙ s)
        (i
          ∙ ap (λ (y : Bytes). t ++ (def.start_delimiter ++ (r ++ (def.end_delimiter ++ (u ++ y)))))
              p
          ∙ simp append_assoc)
        (o'
          ∙ ap (λ (y : ReasoningMode). out ++ tagged y x) m
          ∙ ap (λ (y : List (ReasoningMode × ℕ)). y ++ tagged ReasoningMode.text x) o
          ∙ simp (append_assoc, tagged-append))

  switch-text :
      (s st' : TaggedReasoningParserState)
      → switch def ReasoningMode.text s ≡ ok st'
      → (s.saw_reasoning ≡ false)
        × (st'.mode ≡ ReasoningMode.reasoning)
        × (st'.saw_reasoning ≡ true)
        × (st'.pending ≡ s.pending)
  unfolding switch
  switch-text s st' h = elim (Bool-cases s.saw_reasoning) [
    | inl e ↦ absurd (ground arith)
    | inr e ↦ (e, ground arith, ground arith, ground arith)
  ]

  switch-reasoning :
      (s st' : TaggedReasoningParserState)
      → switch def ReasoningMode.reasoning s ≡ ok st'
      → (st'.mode ≡ ReasoningMode.text)
        × (st'.saw_reasoning ≡ s.saw_reasoning)
        × (st'.pending ≡ s.pending)
  unfolding switch
  switch-reasoning s st' h = ground arith

  -- A delimiter at the front of the held text begins the next section.
  cross :
      (input rest : Bytes) (out : List (ReasoningMode × ℕ)) (st s st' : TaggedReasoningParserState)
      → IsParsed input out st
      → st.pending ≡ delimiter def st.mode ++ rest
      → s.saw_reasoning ≡ st.saw_reasoning
      → s.pending ≡ rest
      → switch def st.mode s ≡ ok st'
      → IsParsed input out st'
  cross input rest out st s st' (before t m w i o) p sw sp h =
      let (_, m', w', p') =
        switch-text s st' (subst (λ (y : ReasoningMode). switch def y s ≡ ok st') m h) in
      inside t [] m' w'
        (i
          ∙ ap (λ (y : Bytes). t ++ y)
              (p
                ∙ ap (λ (y : ReasoningMode). delimiter def y ++ rest) m
                ∙ ap (λ (y : Bytes). def.start_delimiter ++ y) (sym (p' ∙ sp))))
        (o ∙ simp append-nil)
  cross input rest out st s st' (inside t r m w i o) p sw sp h =
      let (m', w', p') =
        switch-reasoning s st' (subst (λ (y : ReasoningMode). switch def y s ≡ ok st') m h) in
      behind t r [] m' (w' ∙ sw ∙ w)
        (i
          ∙ ap (λ (y : Bytes). t ++ (def.start_delimiter ++ (r ++ y)))
              (p
                ∙ ap (λ (y : ReasoningMode). delimiter def y ++ rest) m
                ∙ ap (λ (y : Bytes). def.end_delimiter ++ y) (sym (p' ∙ sp))))
        (o ∙ simp append-nil)
  cross input rest out st s st' (behind t r u m w i o) p sw sp h =
      let (fresh, _, _, _) =
        switch-text s st' (subst (λ (y : ReasoningMode). switch def y s ≡ ok st') m h) in
      absurd (ground (arith, fresh, sw, w))

  -- What is returned at the end of a call: the pending text but for a suffix.
  emit-parts :
      (st st' : TaggedReasoningParserState) (output out : List ReasoningSegment)
      → emit def st output ≡ (st', ok out)
      → (x : Bytes) × (st.pending ≡ x ++ st'.pending)
        × (st'.mode ≡ st.mode)
        × (st'.saw_reasoning ≡ st.saw_reasoning)
        × (written out ≡ written output ++ tagged st.mode x)
  unfolding emit
  emit-parts st st' output out h =
      let k =
        length st.pending
        - longest_delimiter_prefix_suffix st.pending (delimiter def st.mode)
            (forbidden def st.mode) in
      let left : record st { pending = drop k st.pending } ≡ st' = ap (λ (p : Pushed). p.0) h in
      let same : push_reasoning_segment output st.mode (take k st.pending) ≡ out = ground arith in
      (
        take k st.pending,
        sym (take-append-drop k st.pending)
            ∙ ap (λ (z : TaggedReasoningParserState). take k st.pending ++ z.pending) left,
        ap (λ (z : TaggedReasoningParserState). z.mode) (sym left),
        ap (λ (z : TaggedReasoningParserState). z.saw_reasoning) (sym left),
        ap written (sym same) ∙ written-push output st.mode (take k st.pending),
      )

  Runs-IsParsed :
      (input : Bytes) (old : List (ReasoningMode × ℕ)) (st st' : TaggedReasoningParserState)
      (output out : List ReasoningSegment)
      → Runs def st output (st', ok out)
      → IsParsed input (old ++ written output) st
      → IsParsed input (old ++ written out) st'
  Runs-IsParsed input old st st' output out (stop _ _ _ e) h =
      let (_, _, em) = round-done def st st' output out e in
      let (x, p, m, w, o) = emit-parts st st' output out em in
      extend input x (old ++ written output) (old ++ written out) st st' h m w p (
        ap (λ (y : List (ReasoningMode × ℕ)). old ++ y) o
        ∙ sym (append_assoc old (written output) (tagged st.mode x)))
  Runs-IsParsed input old st st' output out (next _ _ _ st1 output1 e r) h =
      let (n, at, _, s, o, p) = round-again def st st1 output output1 e in
      let rest = drop (n + length (delimiter def st.mode)) st.pending in
      let x = take n st.pending in
      let mid : TaggedReasoningParserState = record st {
        pending = delimiter def st.mode ++ rest;
      } in
      Runs-IsParsed input old st1 st' output1 out r (
        cross input rest (old ++ written output1) mid (drained def n st) st1
          (extend input x (old ++ written output) (old ++ written output1) st mid h refl refl
            (sym (find-split st.pending (delimiter def st.mode) n at))
            (ap (λ (y : List ReasoningSegment). old ++ written y) o
              ∙ ap (λ (y : List (ReasoningMode × ℕ)). old ++ y) (written-push output st.mode x)
              ∙ sym (append_assoc old (written output) (tagged st.mode x))))
          refl refl refl s)

  more_text :
      (input delta : Bytes) (out : List (ReasoningMode × ℕ)) (st : TaggedReasoningParserState)
      → IsParsed input out st
      → IsParsed (input ++ delta) out (record st { pending = st.pending ++ delta })
  more_text input delta out st (before t m s i o) =
      before t m s (ap (λ (y : Bytes). y ++ delta) i ∙ simp append_assoc) o
  more_text input delta out st (inside t r m s i o) =
      inside t r m s (ap (λ (y : Bytes). y ++ delta) i ∙ simp append_assoc) o
  more_text input delta out st (behind t r u m s i o) =
      behind t r u m s (ap (λ (y : Bytes). y ++ delta) i ∙ simp append_assoc) o

  push-IsParsed :
      (input delta : Bytes) (old : List (ReasoningMode × ℕ)) (st st' : TaggedReasoningParserState)
      (out : List ReasoningSegment)
      → IsParsed input old st
      → push def st delta ≡ some (st', ok out)
      → IsParsed (input ++ delta) (old ++ written out) st'
  unfolding push written
  push-IsParsed input delta old st st' out h e =
      let joined : TaggedReasoningParserState = record st { pending = st.pending ++ delta } in
      Runs-IsParsed (input ++ delta) old joined st' [] out
        (push_loop-Runs def (suc (length joined.pending)) joined [] (st', ok out) e)
        (subst (λ (o : List (ReasoningMode × ℕ)). IsParsed (input ++ delta) o joined)
          (sym (append-nil old)) (more_text input delta old st h))

  -- A stream: the text given by some calls of `push` from the first state, all of which succeeded, the
  -- segments they returned and the state they left.
  pub data IsFed : Bytes → List ReasoningSegment → TaggedReasoningParserState → Type 0 where
    fresh : IsFed [] [] reasoning_state
    fed :
        {input : Bytes} {out : List ReasoningSegment} {st : TaggedReasoningParserState}
        → (delta : Bytes) (more : List ReasoningSegment) (st' : TaggedReasoningParserState)
        → IsFed input out st
        → push def st delta ≡ some (st', ok more)
        → IsFed (input ++ delta) (out ++ more) st'

  pub IsFed-IsParsed :
      {input : Bytes} {out : List ReasoningSegment} {st : TaggedReasoningParserState}
      → IsFed input out st
      → IsParsed input (written out) st
  unfolding reasoning_state written
  IsFed-IsParsed fresh = before [] refl refl refl refl
  IsFed-IsParsed (fed {input} {out} {st} delta more st' f e) =
      subst (λ (o : List (ReasoningMode × ℕ)). IsParsed (input ++ delta) o st')
        (sym (written-append out more))
        (push-IsParsed input delta (written out) st st' more (IsFed-IsParsed f) e)

  finish-pending :
      (p : Bytes) (rest : List ReasoningSegment)
      → (if not (is_empty p) then err incomplete_delimiter else ok []) ≡ ok rest
      → (p ≡ []) × (rest ≡ [])
  finish-pending [] rest h = (refl, ground arith)
  finish-pending (a ∷ p) rest h = absurd (ground arith)

  finish-ok :
      (st : TaggedReasoningParserState) (rest : List ReasoningSegment)
      → finish def st ≡ ok rest
      → (st.pending ≡ []) × (rest ≡ [])
  unfolding finish
  finish-ok st rest h = elim (mode-cases st.mode) [
    | inl m ↦ finish-pending st.pending rest (ground arith)
    | inr m ↦ absurd (ground arith)
  ]

  finish-text :
      (st : TaggedReasoningParserState) (rest : List ReasoningSegment)
      → st.mode ≡ ReasoningMode.reasoning
      → finish def st ≡ ok rest
      → ⊥
  unfolding finish
  finish-text st rest m h = ground arith

  -- When a stream of successful calls finishes, what it returned is all that it was given: the text
  -- alone, or the text, the reasoning between the delimiters, and the text after it.
  pub finish-written :
      {input : Bytes} {out : List ReasoningSegment} {st : TaggedReasoningParserState}
      → (rest : List ReasoningSegment) → IsFed input out st
      → finish def st ≡ ok rest
      → (written (out ++ rest) ≡ tagged ReasoningMode.text input)
        ⊎ ((t : Bytes) × (r : Bytes) × (u : Bytes) × (input
              ≡ t ++ (def.start_delimiter ++ (r ++ (def.end_delimiter ++ u))))
            × (written (out ++ rest)
                ≡ tagged ReasoningMode.text t
                  ++ (tagged ReasoningMode.reasoning r ++ tagged ReasoningMode.text u)))
  finish-written {input} {out} {st} rest f h =
      let (none_held, none_more) = finish-ok st rest h in
      let all : written (out ++ rest) ≡ written out =
        ap (λ (z : List ReasoningSegment). written (out ++ z)) none_more
        ∙ ap written (append-nil out) in
      elim (IsFed-IsParsed f) [
        | before t m s i o ↦ inl (
            all
            ∙ o
            ∙ ap (tagged ReasoningMode.text)
                (sym (i ∙ ap (λ (y : Bytes). t ++ y) none_held ∙ append-nil t)))
        | inside t r m s i o ↦ absurd (finish-text st rest m h)
        | behind t r u m s i o ↦ inr (
          t,
          r,
          u,
          i
              ∙ ap
                  (λ (y : Bytes).
                    t ++ (def.start_delimiter ++ (r ++ (def.end_delimiter ++ (u ++ y)))))
                  none_held
              ∙ simp append-nil,
          all ∙ o,
        )
      ]
