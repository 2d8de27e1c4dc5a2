-- ===== src/Parser/Tools/Written.antt =====
-- crates/parser/src/lib.rs: the tool parser loses, invents and reorders nothing: what it was given is
-- the text that it returned, with an envelope between delimiters for each call.
use mathlib.Core.List.{append_assoc, append-nil}
use locus.Base.{◌+◌, ◌-◌, ◌≤◌, ◌≡◌, refl, sym, ap, ◌∙◌, subst, some, List, [], ◌∷◌, ◌++◌, arith}
use locus.Base.Lists.{length}
use locus.Base.Results.{ok, err}
use locus.Parser.{Bytes, longest_delimiter_prefix_suffix, take, drop}
use locus.Parser.Find.{find-split, take-append-drop, length-take_le}
use locus.Parser.Tools.{
  Json, TaggedJsonToolParserDefinition, TaggedJsonToolParserState, tool_state, ToolMode,
  ToolSegment, ToolPushed, parse_tool_envelope, emit_text, push, push_text, finish,
}
use locus.Parser.Tools.Returns.{
  HasDelimiters, Goes, enters, leaves, Ends, failed, kept_text, kept_call, goes_on, push-Ends,
}

module _ (json : Json) (def : TaggedJsonToolParserDefinition) where
  -- The text that segments stand for: text as it is, and for a call an envelope within the limit, which
  -- has the call's name and arguments, between the delimiters.
  pub data Renders : List ToolSegment → Bytes → Type 0 where
    nothing : Renders [] []
    text :
        (out : List ToolSegment) (x t : Bytes)
        → Renders out x
        → Renders (out ++ ToolSegment.text t ∷ []) (x ++ t)
    call :
        (out : List ToolSegment) (x body name arguments : Bytes)
        → parse_tool_envelope json body ≡ ok (name, arguments)
        → length body ≤ def.max_buffered_bytes
        → Renders out x
        → Renders
            (out ++ ToolSegment.call name arguments ∷ [])
            (x ++ (def.start_delimiter ++ (body ++ def.end_delimiter)))

  -- What the state holds back of a text.
  abbrev held : ToolMode → Bytes → Bytes
  held ToolMode.text pending = pending
  held ToolMode.tool pending = def.start_delimiter ++ pending

  -- The text given so far is what was returned and what is held.
  abbrev IsParsed : Bytes → List ToolSegment → TaggedJsonToolParserState → Type 0
  IsParsed input out st = (x : Bytes) × Renders out x × (input ≡ x ++ held st.mode st.pending)

  Renders-push_text :
      (old output : List ToolSegment) (x t : Bytes)
      → Renders (old ++ output) x
      → Renders (old ++ push_text output t) (x ++ t)
  unfolding push_text
  Renders-push_text old output x [] r =
      subst (λ (y : Bytes). Renders (old ++ output) y) (sym (append-nil x)) r
  Renders-push_text old output x (a ∷ t) r =
      subst (λ (o : List ToolSegment). Renders o (x ++ a ∷ t))
        (append_assoc old output (ToolSegment.text (a ∷ t) ∷ [])) (text (old ++ output) x (a ∷ t) r)

  Goes-IsParsed :
      (h : HasDelimiters def) (input : Bytes) (st st' : TaggedJsonToolParserState)
      (old output output' : List ToolSegment)
      → Goes json def h st output st' output'
      → IsParsed input (old ++ output) st
      → IsParsed input (old ++ output') st'
  Goes-IsParsed h input st st' old output output' (enters n m at) (x, r, e) = (
    x ++ take n st.pending,
    Renders-push_text old output x (take n st.pending) r,
    e
        ∙ ap (λ (k : ToolMode). x ++ held k st.pending) m
        ∙ ap (λ (y : Bytes). x ++ y) (sym (find-split st.pending def.start_delimiter n at))
        ∙ sym (
            append_assoc x (take n st.pending)
              (def.start_delimiter ++ drop (n + length def.start_delimiter) st.pending)),
  )
  Goes-IsParsed h input st st' old output output' (leaves n name arguments m fits good split)
        (x, r, e) =
      (
        x ++ (def.start_delimiter ++ (take n st.pending ++ def.end_delimiter)),
        subst
            (λ (o : List ToolSegment).
              Renders o (x ++ (def.start_delimiter ++ (take n st.pending ++ def.end_delimiter))))
            (append_assoc old output (ToolSegment.call name arguments ∷ []))
            (call (old ++ output) x (take n st.pending) name arguments good
              (omega (arith, length-take_le n st.pending)) r),
        e
            ∙ ap (λ (k : ToolMode). x ++ held k st.pending) m
            ∙ ap (λ (y : Bytes). x ++ (def.start_delimiter ++ y)) (sym split)
            ∙ simp append_assoc,
      )

  -- The same for what a call leaves and returns.
  abbrev PushedIsParsed : Bytes → List ToolSegment → ToolPushed → Type 0
  PushedIsParsed input old (st, err e) = Unit
  PushedIsParsed input old (st, ok out) = IsParsed input (old ++ out) st

  Ends-IsParsed :
      (h : HasDelimiters def) (input : Bytes) (old output : List ToolSegment)
      (st : TaggedJsonToolParserState) (p : ToolPushed)
      → Ends json def h st output p
      → IsParsed input (old ++ output) st
      → PushedIsParsed input old p
  unfolding emit_text
  Ends-IsParsed h input old output st p (failed _ _ s e) i = tt
  Ends-IsParsed h input old output st p (kept_text _ _ m missing) (x, r, e) =
      let k =
        length st.pending
        - longest_delimiter_prefix_suffix st.pending def.start_delimiter def.end_delimiter in
      (
        x ++ take k st.pending,
        Renders-push_text old output x (take k st.pending) r,
        e
            ∙ ap (λ (k : ToolMode). x ++ held k st.pending) m
            ∙ ap (λ (y : Bytes). x ++ y) (sym (take-append-drop k st.pending))
            ∙ sym (append_assoc x (take k st.pending) (drop k st.pending)),
      )
  Ends-IsParsed h input old output st p (kept_call _ _ m fits) i = i
  Ends-IsParsed h input old output st p (goes_on _ _ _ s o g run) i =
      Ends-IsParsed h input old o s p run (Goes-IsParsed h input st s old output o g i)

  more_text :
      (m : ToolMode) (input x pending delta : Bytes)
      → input ≡ x ++ held m pending
      → input ++ delta ≡ x ++ held m (pending ++ delta)
  more_text ToolMode.text input x pending delta e =
      ap (λ (y : Bytes). y ++ delta) e ∙ simp append_assoc
  more_text ToolMode.tool input x pending delta e =
      ap (λ (y : Bytes). y ++ delta) e ∙ simp append_assoc

  push-IsParsed :
      (h : HasDelimiters def) (input delta : Bytes) (old out : List ToolSegment)
      (st st' : TaggedJsonToolParserState)
      → IsParsed input old st
      → push json def st delta ≡ some (st', ok out)
      → IsParsed (input ++ delta) (old ++ out) st'
  push-IsParsed h input delta old out st st' (x, r, i) e =
      let joined : TaggedJsonToolParserState = record st { pending = st.pending ++ delta } in
      let (p, e', run) = push-Ends json def h st delta in
      let same : p ≡ (st', ok out) = ground arith in
      subst (λ (p : ToolPushed). PushedIsParsed (input ++ delta) old p) same
        (Ends-IsParsed h (input ++ delta) old [] joined p run (
          x,
          subst (λ (o : List ToolSegment). Renders o x) (sym (append-nil old)) r,
          more_text st.mode input x st.pending delta i,
        ))

  -- A stream: the text given by some calls of `push` from the first state, all of which succeeded, the
  -- segments they returned and the state they left.
  pub data IsFed : Bytes → List ToolSegment → TaggedJsonToolParserState → Type 0 where
    fresh : IsFed [] [] tool_state
    fed :
        {input : Bytes} {out : List ToolSegment} {st : TaggedJsonToolParserState}
        → (delta : Bytes) (more : List ToolSegment) (st' : TaggedJsonToolParserState)
        → IsFed input out st
        → push json def st delta ≡ some (st', ok more)
        → IsFed (input ++ delta) (out ++ more) st'

  IsFed-IsParsed :
      (h : HasDelimiters def) {input : Bytes} {out : List ToolSegment}
      {st : TaggedJsonToolParserState}
      → IsFed input out st
      → IsParsed input out st
  unfolding tool_state
  IsFed-IsParsed h fresh = ([], nothing, refl)
  IsFed-IsParsed h (fed {input} {out} {st} delta more st' f e) =
      push-IsParsed h input delta out more st st' (IsFed-IsParsed h f) e

  finish-ok :
      (m : ToolMode) (p : Bytes) (rest : List ToolSegment)
      → finish json def (record { mode = m; pending = p }) ≡ ok rest
      → (held m p ≡ []) × (rest ≡ [])
  unfolding finish
  finish-ok ToolMode.tool p rest e = absurd (ground arith)
  finish-ok ToolMode.text [] rest e = (refl, ground arith)
  finish-ok ToolMode.text (a ∷ p) rest e = absurd (ground arith)

  -- When neither delimiter is empty and a stream of successful calls finishes, the text it was given is
  -- what the returned segments stand for, in their order: text as it is, and for a call an envelope that
  -- has its name and arguments, within the byte limit, between the delimiters.
  pub finish-Renders :
      (h : HasDelimiters def) {input : Bytes} {out : List ToolSegment}
      {st : TaggedJsonToolParserState} (rest : List ToolSegment)
      → IsFed input out st
      → finish json def st ≡ ok rest
      → Renders (out ++ rest) input
  finish-Renders h {input} {out} {st} rest f e =
      let (x, r, i) = IsFed-IsParsed h f in
      let (none_held, none_more) = finish-ok st.mode st.pending rest e in
      let all : x ≡ input = sym (i ∙ ap (λ (y : Bytes). x ++ y) none_held ∙ append-nil x) in
      let same : out ≡ out ++ rest =
        sym (ap (λ (z : List ToolSegment). out ++ z) none_more ∙ append-nil out) in
      subst (λ (y : Bytes). Renders (out ++ rest) y) all
        (subst (λ (o : List ToolSegment). Renders o x) same r)
