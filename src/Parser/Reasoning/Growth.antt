-- ===== src/Parser/Reasoning/Growth.antt =====
-- crates/parser/src/lib.rs: what becomes of a round of the reasoning parser's loop when more text
-- follows.
use locus.Base.{
  ℕ, ◌+◌, ◌≤◌, ◌≡◌, refl, sym, ap, ◌∙◌, subst, true, false, Option, none, some, List, ◌++◌, arith,
  Bool-cases, Option-cases, inl, inr, ltb,
}
use locus.Base.Lists.{length}
use locus.Base.Results.{ok, err, Result-cases}
use locus.Parser.{Bytes, ParserError, unexpected_delimiter, find, take, is_before}
use locus.Parser.Find.{find-append, find-inside, find-length, take_append, drop_append}
use locus.Parser.Reasoning.{
  TaggedReasoningParserDefinition, TaggedReasoningParserState, ReasoningSegment, ReasoningMode,
  push_reasoning_segment, delimiter, forbidden, emit, switch, drained, done, again, round_at, round,
}
use locus.Parser.Reasoning.Returns.{switch-pending}
use locus.Parser.Reasoning.Written.{tagged, written, written-push}
use locus.Parser.Reasoning.Shift.{holding}

-- What `find` sees once more text follows, when what it saw before decides.
module _ (x d f y : Bytes) where
  before_stays :
      (k : ℕ)
      → find d f ≡ none
      → find x f ≡ some k
      → is_before (some k) (find x d) ≡ true
      → is_before (find (x ++ y) f) (find (x ++ y) d) ≡ true
  before_stays k apart at h = elim (Option-cases (find x d)) [
    | inl missing ↦ elim (Option-cases (find (x ++ y) d)) [
      | inl still ↦ rw (find-append x f y k at, still) refl
      | inr (m, e) ↦ elim (Bool-cases (ltb k m)) [
        | inl lt ↦ rw (find-append x f y k at, e) lt
        | inr ge ↦
            let (i, inside) = find-inside x f d y k m at missing e (ground arith) in
            absurd (ground arith)
      ]
    ]
    | inr (m, e) ↦
        rw (find-append x f y k at, find-append x d y m e)
          (subst (λ (o : Option ℕ). is_before (some k) o ≡ true) e h)
  ]

  after_stays :
      (n : ℕ)
      → find f d ≡ none
      → find x d ≡ some n
      → is_before (find x f) (some n) ≡ false
      → is_before (find (x ++ y) f) (some n) ≡ false
  after_stays n apart at h = elim (Option-cases (find x f)) [
    | inl missing ↦ elim (Option-cases (find (x ++ y) f)) [
      | inl still ↦ rw still refl
      | inr (m, e) ↦ elim (Bool-cases (ltb m n)) [
        | inl lt ↦
            let (i, inside) = find-inside x d f y n m at missing e (ground arith) in
            absurd (ground arith)
        | inr ge ↦ rw e ge
      ]
    ]
    | inr (m, e) ↦
        rw (find-append x f y m e) (subst (λ (o : Option ℕ). is_before o (some n) ≡ false) e h)
  ]

-- Neither delimiter contains the other.
pub record IsApart (def : TaggedReasoningParserDefinition) : Type 0 where
  pub start_outside : find def.end_delimiter def.start_delimiter ≡ none
  pub end_outside : find def.start_delimiter def.end_delimiter ≡ none

module _ (def : TaggedReasoningParserDefinition) where
  apart :
      (m : ReasoningMode)
      → IsApart def
      → (find (delimiter def m) (forbidden def m) ≡ none)
        × (find (forbidden def m) (delimiter def m) ≡ none)
  apart ReasoningMode.text a = (a.end_outside, a.start_outside)
  apart ReasoningMode.reasoning a = (a.start_outside, a.end_outside)

  switch-holding :
      (m : ReasoningMode) (s s1 : TaggedReasoningParserState) (z : Bytes)
      → switch def m s ≡ ok s1
      → switch def m (holding def s z) ≡ ok (holding def s1 z)
  unfolding switch
  switch-holding ReasoningMode.text s s1 z h = ground arith
  switch-holding ReasoningMode.reasoning s s1 z h = ground arith

  switch-holding_error :
      (m : ReasoningMode) (s : TaggedReasoningParserState) (e : ParserError) (z : Bytes)
      → switch def m s ≡ err e
      → switch def m (holding def s z) ≡ err e
  unfolding switch
  switch-holding_error ReasoningMode.text s e z h = ground arith
  switch-holding_error ReasoningMode.reasoning s e z h = ground arith

  -- The state when more text has come.
  abbrev pub more : Bytes → TaggedReasoningParserState → TaggedReasoningParserState
  more y st = holding def st (st.pending ++ y)

  -- How a round goes when more text has come: as before, unless it ended for want of a delimiter.
  pub data Grown (y : Bytes) (st : TaggedReasoningParserState) (o o' : List ReasoningSegment)
      : Type 0 where
    fails :
        (e : ParserError) (s s' : TaggedReasoningParserState)
        → round def st o ≡ done (s, err e)
        → round def (more y st) o' ≡ done (s', err e)
        → Grown y st o o'
    goes_on :
        (s1 : TaggedReasoningParserState) (o1 o1' : List ReasoningSegment)
        → round def st o ≡ again s1 o1
        → round def (more y st) o' ≡ again (more y s1) o1'
        → (written o ≡ written o' → written o1 ≡ written o1')
        → Grown y st o o'
    waits :
        find st.pending (delimiter def st.mode) ≡ none
        → find st.pending (forbidden def st.mode) ≡ none
        → round def st o ≡ done (emit def st o)
        → Grown y st o o'

  drained-more :
      (y : Bytes) (st : TaggedReasoningParserState) (n : ℕ)
      → find st.pending (delimiter def st.mode) ≡ some n
      → drained def n (more y st) ≡ more y (drained def n st)
  drained-more y st n at =
      ap (λ (z : Bytes). holding def st z)
        (drop_append (n + length (delimiter def st.mode)) st.pending y
          (find-length st.pending (delimiter def st.mode) n at))

  same_segment :
      (m : ReasoningMode) (o o' : List ReasoningSegment) (x : Bytes)
      → written o ≡ written o'
      → written (push_reasoning_segment o m x) ≡ written (push_reasoning_segment o' m x)
  same_segment m o o' x h =
      written-push o m x
      ∙ ap (λ (w : List (ReasoningMode × ℕ)). w ++ tagged m x) h
      ∙ sym (written-push o' m x)

  module _ (y : Bytes) (st : TaggedReasoningParserState) (o o' : List ReasoningSegment) where
    still_error :
        is_before
            (find st.pending (forbidden def st.mode))
            (find st.pending (delimiter def st.mode))
          ≡ true
        → is_before
            (find (st.pending ++ y) (forbidden def st.mode))
            (find (st.pending ++ y) (delimiter def st.mode))
          ≡ true
        → Grown y st o o'
    unfolding round round_at
    still_error h g = fails unexpected_delimiter st (more y st) (rw h refl) (rw g refl)

    still_switches :
        (n : ℕ)
        → find st.pending (delimiter def st.mode) ≡ some n
        → is_before (find st.pending (forbidden def st.mode)) (some n) ≡ false
        → is_before (find (st.pending ++ y) (forbidden def st.mode)) (some n) ≡ false
        → Grown y st o o'
    unfolding round round_at
    still_switches n at h g =
        let at' = find-append st.pending (delimiter def st.mode) y n at in
        let cut = drained-more y st n at in
        let size : n ≤ length st.pending =
          omega (arith, find-length st.pending (delimiter def st.mode) n at) in
        let piece = take_append n st.pending y size in
        elim (Result-cases (switch def st.mode (drained def n st))) [
          | inl (s1, e) ↦
              goes_on s1 (push_reasoning_segment o st.mode (take n st.pending))
                (push_reasoning_segment o' st.mode (take n st.pending)) (rw (at, h, e) refl)
                (rw
                  (
                    at',
                    g,
                    cut,
                    piece,
                    switch-holding st.mode (drained def n st) s1 ((drained def n st).pending ++ y)
                        e,
                    switch-pending def st.mode (drained def n st) s1 e,
                  )
                  refl)
                (same_segment st.mode o o' (take n st.pending))
          | inr (x, e) ↦
              fails x (drained def n st) (more y (drained def n st)) (rw (at, h, e) refl) (
                rw
                  (
                    at',
                    g,
                    cut,
                    piece,
                    switch-holding_error st.mode (drained def n st) x
                        ((drained def n st).pending ++ y) e,
                  )
                  refl)
        ]

    error_stays :
        find (delimiter def st.mode) (forbidden def st.mode) ≡ none
        → is_before
            (find st.pending (forbidden def st.mode))
            (find st.pending (delimiter def st.mode))
          ≡ true
        → is_before
            (find (st.pending ++ y) (forbidden def st.mode))
            (find (st.pending ++ y) (delimiter def st.mode))
          ≡ true
    error_stays df h = elim (Option-cases (find st.pending (forbidden def st.mode))) [
      | inl absent ↦
          let never =
            subst (λ (f : Option ℕ). is_before f (find st.pending (delimiter def st.mode)) ≡ true)
              absent h in
          absurd (ground arith)
      | inr (k, at) ↦
          before_stays st.pending (delimiter def st.mode) (forbidden def st.mode) y k df at (
            subst (λ (f : Option ℕ). is_before f (find st.pending (delimiter def st.mode)) ≡ true)
              at h)
    ]

    pub grown : IsApart def → Grown y st o o'
    unfolding round round_at
    grown a =
        let d = delimiter def st.mode in
        let f = forbidden def st.mode in
        let (df, fd) = apart st.mode a in
        elim (Option-cases (find st.pending d)) [
          | inr (n, at) ↦ elim (Bool-cases (is_before (find st.pending f) (some n))) [
            | inr h ↦ still_switches n at h (after_stays st.pending d f y n fd at h)
            | inl h ↦
                let h' : is_before (find st.pending f) (find st.pending d) ≡ true = rw at h in
                still_error h' (error_stays df h')
          ]
          | inl missing ↦ elim (Option-cases (find st.pending f)) [
            | inl absent ↦ waits missing absent (rw (missing, absent) refl)
            | inr (k, at) ↦
                let h' : is_before (find st.pending f) (find st.pending d) ≡ true =
                  rw (at, missing) refl in
                still_error h' (error_stays df h')
          ]
        ]
