-- ===== src/Parser/Reasoning/Shift.antt =====
-- crates/parser/src/lib.rs: rounds of the reasoning parser's loop on the same text, of which one has
-- returned a part already.
use mathlib.Core.List.{append_assoc, append-nil}
use locus.Base.{
  ℕ, ◌+◌, ◌-◌, ◌≡◌, refl, sym, ap, ◌∙◌, subst, Option, none, some, List, [], ◌++◌, arith,
  Bool-cases, inl, inr,
}
use locus.Base.Lists.{length}
use locus.Base.Results.{Result, ok, err}
use locus.Parser.{Bytes, ParserError, find, take, drop, is_before, longest_delimiter_prefix_suffix}
use locus.Parser.Find.{shifted, take_past, drop_past, longest-le, length-append_bytes}
use locus.Parser.Reasoning.{
  TaggedReasoningParserDefinition, TaggedReasoningParserState, ReasoningSegment, ReasoningMode,
  Pushed, push_reasoning_segment, delimiter, forbidden, emit, switch, drained, Round, done, again,
  after_switch, round_at, round,
}
use locus.Parser.Reasoning.Returns.{Runs, stop, next}
use locus.Parser.Reasoning.Written.{tagged, written, written-push, tagged-append}

-- The second call gives what the first one does, with the bytes of `w` before it.
abbrev pub Same : List (ReasoningMode × ℕ) → Pushed → Pushed → Type 0
Same w (s, ok a) (s', ok b) = (s ≡ s') × (w ++ written a ≡ written b)
Same w (s, err e) (s', err e') = e ≡ e'
Same w (s, ok a) (s', err e) = ⊥
Same w (s, err e) (s', ok b) = ⊥

is_before-shifted : (n : ℕ) (f d : Option ℕ) → is_before (shifted n f) (shifted n d) ≡ is_before f d
is_before-shifted n none d = refl
is_before-shifted n (some a) none = refl
is_before-shifted n (some a) (some b) = ground arith

module _ (def : TaggedReasoningParserDefinition) where
  abbrev pub SameRound : List (ReasoningMode × ℕ) → Round def → Round def → Type 0
  SameRound w (done p) (done q) = Same w p q
  SameRound w (again s a) (again s' b) = (s ≡ s') × (w ++ written a ≡ written b)
  SameRound w (done p) (again s b) = ⊥
  SameRound w (again s a) (done q) = ⊥

  -- The state with another pending text.
  abbrev pub holding : TaggedReasoningParserState → Bytes → TaggedReasoningParserState
  holding st z = record st { pending = z }

  written_past :
      (w : List (ReasoningMode × ℕ)) (m : ReasoningMode) (o o' : List ReasoningSegment)
      (x t : Bytes)
      → w ++ written o ≡ written o' ++ tagged m x
      → w ++ written (push_reasoning_segment o m t) ≡ written (push_reasoning_segment o' m (x ++ t))
  written_past w m o o' x t h =
      ap (λ (z : List (ReasoningMode × ℕ)). w ++ z) (written-push o m t)
      ∙ sym (append_assoc w (written o) (tagged m t))
      ∙ ap (λ (z : List (ReasoningMode × ℕ)). z ++ tagged m t) h
      ∙ append_assoc (written o') (tagged m x) (tagged m t)
      ∙ ap (λ (z : List (ReasoningMode × ℕ)). written o' ++ z) (sym (tagged-append m x t))
      ∙ sym (written-push o' m (x ++ t))

  after_switch-Same :
      (w : List (ReasoningMode × ℕ)) (a b : TaggedReasoningParserState)
      (o o' : List ReasoningSegment) (r : Result ParserError TaggedReasoningParserState)
      → w ++ written o ≡ written o'
      → SameRound w (after_switch def a o r) (after_switch def b o' r)
  after_switch-Same w a b o o' (ok s) h = (refl, h)
  after_switch-Same w a b o o' (err e) h = refl

  drained_past :
      (st : TaggedReasoningParserState) (x z : Bytes) (m : ℕ)
      → drained def (length x + m) (holding st (x ++ z)) ≡ drained def m (holding st z)
  drained_past st x z m =
      let k = length (delimiter def st.mode) in
      let sum : length x + m + k ≡ length x + (m + k) = omega arith in
      ap (λ (y : Bytes). holding st y) (ap (λ (i : ℕ). drop i (x ++ z)) sum ∙ drop_past x (m + k) z)

  emit-Same :
      (w : List (ReasoningMode × ℕ)) (st : TaggedReasoningParserState) (x z : Bytes)
      (o o' : List ReasoningSegment)
      → longest_delimiter_prefix_suffix (x ++ z) (delimiter def st.mode) (forbidden def st.mode)
        ≡ longest_delimiter_prefix_suffix z (delimiter def st.mode) (forbidden def st.mode)
      → w ++ written o ≡ written o' ++ tagged st.mode x
      → Same w (emit def (holding st z) o) (emit def (holding st (x ++ z)) o')
  unfolding emit
  emit-Same w st x z o o' l h =
      let g = longest_delimiter_prefix_suffix z (delimiter def st.mode) (forbidden def st.mode) in
      let k = length z - g in
      let size : length (x ++ z)
            - longest_delimiter_prefix_suffix (x ++ z) (delimiter def st.mode)
                (forbidden def st.mode)
          ≡ length x + k =
        omega (
          arith,
          l,
          length-append_bytes x z,
          longest-le z (delimiter def st.mode) (forbidden def st.mode),
        ) in
      (
        ap (λ (y : Bytes). holding st y)
            (sym (ap (λ (i : ℕ). drop i (x ++ z)) size ∙ drop_past x k z)),
        written_past w st.mode o o' x (take k z) h
            ∙ ap (λ (y : Bytes). written (push_reasoning_segment o' st.mode y))
                (sym (ap (λ (i : ℕ). take i (x ++ z)) size ∙ take_past x k z)),
      )

  round_at-Same :
      (w : List (ReasoningMode × ℕ)) (st : TaggedReasoningParserState) (x z : Bytes)
      (o o' : List ReasoningSegment) (d f : Option ℕ)
      → longest_delimiter_prefix_suffix (x ++ z) (delimiter def st.mode) (forbidden def st.mode)
        ≡ longest_delimiter_prefix_suffix z (delimiter def st.mode) (forbidden def st.mode)
      → w ++ written o ≡ written o' ++ tagged st.mode x
      → SameRound w
          (round_at def (holding st z) o d f)
          (round_at def (holding st (x ++ z)) o' (shifted (length x) d) (shifted (length x) f))
  unfolding round_at
  round_at-Same w st x z o o' d f l h = elim (Bool-cases (is_before f d)) [
    | inl b ↦ rw (is_before-shifted (length x) f d, b) refl
    | inr b ↦ rw (is_before-shifted (length x) f d, b) (at_delimiter d)
  ]
    where
      at_delimiter :
          (d : Option ℕ)
          → SameRound w
              (elim d [
                | none ↦ done (emit def (holding st z) o)
                | some m ↦
                    after_switch def
                      (drained def m (holding st z))
                      (push_reasoning_segment o st.mode (take m z))
                      (switch def st.mode (drained def m (holding st z)))
              ])
              (elim (shifted (length x) d) [
                | none ↦ done (emit def (holding st (x ++ z)) o')
                | some m ↦
                    after_switch def
                      (drained def m (holding st (x ++ z)))
                      (push_reasoning_segment o' st.mode (take m (x ++ z)))
                      (switch def st.mode (drained def m (holding st (x ++ z))))
              ])
      at_delimiter none = emit-Same w st x z o o' l h
      at_delimiter (some m) =
          rw (drained_past st x z m, take_past x m z)
            (after_switch-Same w (drained def m (holding st z)) (drained def m (holding st z))
              (push_reasoning_segment o st.mode (take m z))
              (push_reasoning_segment o' st.mode (x ++ take m z))
              (switch def st.mode (drained def m (holding st z)))
              (written_past w st.mode o o' x (take m z) h))

  -- The part `x` is returned already, and `z` is held: the round is that of the whole text.
  pub round_shift :
      (w : List (ReasoningMode × ℕ)) (st : TaggedReasoningParserState) (x z : Bytes)
      (o o' : List ReasoningSegment)
      → find (x ++ z) (delimiter def st.mode) ≡ shifted (length x) (find z (delimiter def st.mode))
      → find (x ++ z) (forbidden def st.mode) ≡ shifted (length x) (find z (forbidden def st.mode))
      → longest_delimiter_prefix_suffix (x ++ z) (delimiter def st.mode) (forbidden def st.mode)
        ≡ longest_delimiter_prefix_suffix z (delimiter def st.mode) (forbidden def st.mode)
      → w ++ written o ≡ written o' ++ tagged st.mode x
      → SameRound w (round def (holding st z) o) (round def (holding st (x ++ z)) o')
  unfolding round
  round_shift w st x z o o' d f l h =
      rw (d, f)
        (round_at-Same w st x z o o' (find z (delimiter def st.mode))
          (find z (forbidden def st.mode)) l h)

  unshifted : (o : Option ℕ) → o ≡ shifted 0 o
  unshifted none = refl
  unshifted (some n) = ap (λ (m : ℕ). some m) (omega arith)

  round-Same :
      (w : List (ReasoningMode × ℕ)) (st : TaggedReasoningParserState)
      (o o' : List ReasoningSegment)
      → w ++ written o ≡ written o'
      → SameRound w (round def st o) (round def st o')
  round-Same w st o o' h =
      round_shift w st [] st.pending o o' (unshifted (find st.pending (delimiter def st.mode)))
        (unshifted (find st.pending (forbidden def st.mode))) refl
        (h ∙ sym (append-nil (written o')))

  -- From equal rounds on, the loops give the same.
  pub Runs-after :
      (w : List (ReasoningMode × ℕ)) (st st' : TaggedReasoningParserState)
      (o o' : List ReasoningSegment) (p q : Pushed)
      → SameRound w (round def st o) (round def st' o')
      → Runs def st o p
      → Runs def st' o' q
      → Same w p q
  Runs-after w st st' o o' p q s (stop _ _ _ e) (stop _ _ _ e') =
      subst (λ (r : Round def). SameRound w r (done q)) e
        (subst (λ (r : Round def). SameRound w (round def st o) r) e' s)
  Runs-after w st st' o o' p q s (stop _ _ _ e) (next _ _ _ s1 o1 e' r') = absurd (
      subst (λ (r : Round def). SameRound w r (again s1 o1)) e
        (subst (λ (r : Round def). SameRound w (round def st o) r) e' s))
  Runs-after w st st' o o' p q s (next _ _ _ s1 o1 e r) (stop _ _ _ e') = absurd (
      subst (λ (r : Round def). SameRound w r (done q)) e
        (subst (λ (r : Round def). SameRound w (round def st o) r) e' s))
  Runs-after w st st' o o' p q s (next _ _ _ s1 o1 e r) (next _ _ _ s2 o2 e' r') =
      let (same, out) : (s1 ≡ s2) × (w ++ written o1 ≡ written o2) =
        subst (λ (r : Round def). SameRound w r (again s2 o2)) e
          (subst (λ (r : Round def). SameRound w (round def st o) r) e' s) in
      Runs-after w s1 s2 o1 o2 p q
        (subst (λ (z : TaggedReasoningParserState). SameRound w (round def s1 o1) (round def z o2))
          same (round-Same w s1 o1 o2 out))
        r r'
