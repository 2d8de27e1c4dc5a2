-- ===== src/Parser/Find.antt =====
-- crates/parser/src/lib.rs: facts on `find` and on the suffixes that may begin a delimiter, for text
-- that more text follows.
use locus.Base.{
  ℕ, zero, suc, ◌+◌, ◌-◌, ◌≤◌, ◌≡◌, refl, ap, subst, true, false, max, Option, none, some, [], ◌∷◌,
  ◌++◌, arith, Bool-cases, Option-cases, inl, inr,
}
use mathlib.Core.List.{append_assoc}
use locus.Base.Lists.{length}
use locus.Parser.{
  Bytes, starts_with, find, take, drop, is_delimiter_prefix, longest_delimiter_prefix_suffix,
}

pub length-append_bytes : (x y : Bytes) → length (x ++ y) ≡ length x + length y
length-append_bytes [] y = omega arith
length-append_bytes (a ∷ x) y = omega (arith, length-append_bytes x y)

pub take-append-drop : (n : ℕ) (x : Bytes) → take n x ++ drop n x ≡ x
take-append-drop zero x = refl
take-append-drop (suc n) [] = refl
take-append-drop (suc n) (a ∷ x) = ap (λ (y : Bytes). a ∷ y) (take-append-drop n x)

pub length-drop : (n : ℕ) (x : Bytes) → length (drop n x) ≡ length x - n
length-drop zero x = omega arith
length-drop (suc n) [] = omega arith
length-drop (suc n) (a ∷ x) = omega (arith, length-drop n x)

pub length-take_le : (n : ℕ) (x : Bytes) → length (take n x) ≤ n
length-take_le zero x = omega arith
length-take_le (suc n) [] = omega arith
length-take_le (suc n) (a ∷ x) = omega (arith, length-take_le n x)

pub take_append : (n : ℕ) (x y : Bytes) → n ≤ length x → take n (x ++ y) ≡ take n x
take_append zero x y h = refl
take_append (suc n) [] y h = absurd (omega arith)
take_append (suc n) (a ∷ x) y h = ap (λ (z : Bytes). a ∷ z) (take_append n x y (omega arith))

pub drop_append : (n : ℕ) (x y : Bytes) → n ≤ length x → drop n (x ++ y) ≡ drop n x ++ y
drop_append zero x y h = refl
drop_append (suc n) [] y h = absurd (omega arith)
drop_append (suc n) (a ∷ x) y h = drop_append n x y (omega arith)

pub take_past : (x : Bytes) (n : ℕ) (y : Bytes) → take (length x + n) (x ++ y) ≡ x ++ take n y
take_past [] n y = ground arith
take_past (a ∷ x) n y =
    let e : length (a ∷ x) + n ≡ suc (length x + n) = omega arith in
    rw e (ap (λ (z : Bytes). a ∷ z) (take_past x n y))

pub drop_past : (x : Bytes) (n : ℕ) (y : Bytes) → drop (length x + n) (x ++ y) ≡ drop n y
drop_past [] n y = ground arith
drop_past (a ∷ x) n y =
    let e : length (a ∷ x) + n ≡ suc (length x + n) = omega arith in rw e (drop_past x n y)

starts_with-append : (x d y : Bytes) → starts_with x d ≡ true → starts_with (x ++ y) d ≡ true
unfolding starts_with
starts_with-append x [] [] h = ground arith
starts_with-append x [] (b ∷ y) h = ground arith
starts_with-append [] (p ∷ d) y h = absurd (ground arith)
starts_with-append (t ∷ x) (p ∷ d) y h = ground (arith, starts_with-append x d y)

-- A text that is long enough decides.
starts_with_long : (x d y : Bytes) → length d ≤ length x → starts_with (x ++ y) d ≡ starts_with x d
unfolding starts_with
starts_with_long x [] y h = ground arith
starts_with_long [] (p ∷ d) y h = absurd (omega arith)
starts_with_long (t ∷ x) (p ∷ d) y h = ground (arith, starts_with_long x d y)

-- Neither is the beginning of the other: they differ at some byte.
starts_with-apart :
    (x d y : Bytes)
    → starts_with x d ≡ false
    → starts_with d x ≡ false
    → (starts_with (x ++ y) d ≡ false) × (starts_with d (x ++ y) ≡ false)
unfolding starts_with
starts_with-apart x [] y h g = absurd (ground arith)
starts_with-apart [] (p ∷ d) y h g = absurd (ground arith)
starts_with-apart (t ∷ x) (p ∷ d) y h g = ground (arith, starts_with-apart x d y)

-- A delimiter that only the longer text starts with goes on past the shorter one.
starts_with-past :
    (x d y : Bytes)
    → starts_with (x ++ y) d ≡ true
    → starts_with x d ≡ false
    → (g : Bytes) × (d ≡ x ++ g)
unfolding starts_with
starts_with-past x [] y h g = absurd (ground arith)
starts_with-past [] (p ∷ d) y h g = (p ∷ d, refl)
starts_with-past (t ∷ x) (p ∷ d) y h g =
    let (r, e) = starts_with-past x d y (ground arith) (ground arith) in (r, ground arith)

pub starts_with-eq : (x d : Bytes) → starts_with x d ≡ true → x ≡ d ++ drop (length d) x
unfolding starts_with
starts_with-eq x [] h = refl
starts_with-eq [] (p ∷ d) h = absurd (ground arith)
starts_with-eq (t ∷ x) (p ∷ d) h = ground (arith, starts_with-eq x d)

starts_with-length : (x d : Bytes) → starts_with x d ≡ true → length d ≤ length x
unfolding starts_with
starts_with-length x [] h = omega arith
starts_with-length [] (p ∷ d) h = absurd (ground arith)
starts_with-length (t ∷ x) (p ∷ d) h = ground (arith, starts_with-length x d)

pub find-here : (x d : Bytes) → starts_with x d ≡ true → find x d ≡ some 0
unfolding find
find-here [] d h = ground arith
find-here (t ∷ x) d h = ground arith

pub find-length : (x d : Bytes) (n : ℕ) → find x d ≡ some n → n + length d ≤ length x
unfolding find
find-length [] d n h = ground (arith, starts_with-length [] d)
find-length (t ∷ x) d n h = elim (Bool-cases (starts_with (t ∷ x) d)) [
  | inl here ↦ ground (arith, starts_with-length (t ∷ x) d)
  | inr later ↦ elim (Option-cases (find x d)) [
    | inl e ↦ absurd (ground arith)
    | inr (m, e) ↦ ground (arith, find-length x d m e)
  ]
]

-- What `find` finds: the text is a prefix, the pattern and the rest.
pub find-split :
    (x d : Bytes) (n : ℕ) → find x d ≡ some n → take n x ++ (d ++ drop (n + length d) x) ≡ x
unfolding find
find-split [] d n h = ground (arith, starts_with-eq [] d)
find-split (t ∷ x) d n h = elim (Bool-cases (starts_with (t ∷ x) d)) [
  | inl here ↦ ground (arith, starts_with-eq (t ∷ x) d)
  | inr later ↦ elim (Option-cases (find x d)) [
    | inl e ↦ absurd (ground arith)
    | inr (m, e) ↦
        let same : suc m ≡ n = ground arith in
        let next : suc m + length d ≡ suc (m + length d) = omega arith in
        rw (← same) (rw next (ap (λ (z : Bytes). t ∷ z) (find-split x d m e)))
  ]
]

-- What was found stays the first occurrence when text follows.
pub find-append : (x d y : Bytes) (n : ℕ) → find x d ≡ some n → find (x ++ y) d ≡ some n
unfolding find
find-append [] d y n h = ground (arith, find-here y d, starts_with-append [] d y)
find-append (t ∷ x) d y n h = elim (Bool-cases (starts_with (t ∷ x) d)) [
  | inl here ↦ ground (arith, starts_with-append (t ∷ x) d y)
  | inr later ↦ elim (Option-cases (find x d)) [
    | inl e ↦ absurd (ground arith)
    | inr (m, e) ↦
        ground (arith, find-append x d y m e, find-length x d m e, starts_with_long (t ∷ x) d y)
  ]
]

-- A second pattern that only the longer text has, not after the first one, has the first one in it.
pub find-inside :
    (x d f y : Bytes) (n m : ℕ)
    → find x d ≡ some n
    → find x f ≡ none
    → find (x ++ y) f ≡ some m
    → m ≤ n
    → (k : ℕ) × (find f d ≡ some k)
unfolding find
find-inside [] d f y n m h g e le = (n, find-append [] d f n h)
find-inside (t ∷ x) d f y n m h g e le = elim (Bool-cases (starts_with (t ∷ x ++ y) f)) [
  | inl here ↦
      let (r, same) = starts_with-past (t ∷ x) f y here (ground arith) in
      (n, rw same (find-append (t ∷ x) d r n h))
  | inr later ↦ elim (Option-cases (find x d)) [
    | inl none_later ↦ absurd (ground arith)
    | inr (n', e') ↦ elim (Option-cases (find (x ++ y) f)) [
      | inl none_later ↦ absurd (ground arith)
      | inr (m', e'') ↦ find-inside x d f y n' m' e' (ground arith) e'' (ground arith)
    ]
  ]
]

-- No suffix of the text that begins before `s` may begin the delimiter.
abbrev pub IsClear : Bytes → Bytes → Bytes → Type 0
IsClear [] s d = Unit
IsClear (a ∷ x) s d = (starts_with d (a ∷ x ++ s) ≡ false) × IsClear x s d

pub longest-IsClear :
    (x s d e : Bytes)
    → longest_delimiter_prefix_suffix (x ++ s) d e ≤ length s
    → IsClear x s d × IsClear x s e
unfolding longest_delimiter_prefix_suffix is_delimiter_prefix
longest-IsClear [] s d e h = (tt, tt)
longest-IsClear (a ∷ x) s d e h =
    let (p, q) = longest-IsClear x s d e (ground arith) in
    ((ground (arith, length-append_bytes x s), p), (ground (arith, length-append_bytes x s), q))

-- The place of a match, `n` further on.
abbrev pub shifted : ℕ → Option ℕ → Option ℕ
shifted n none = none
shifted n (some m) = some (n + m)

-- A text without the delimiter, whose part before `s` is clear: when text follows, a match is one
-- that begins in `s` or after it.
pub find_shift :
    (x s y d : Bytes)
    → find (x ++ s) d ≡ none
    → IsClear x s d
    → find (x ++ (s ++ y)) d ≡ shifted (length x) (find (s ++ y) d)
unfolding find
find_shift [] s y d h c = ground arith
find_shift (a ∷ x) s y d h (c, cs) =
    let (apart, _) = starts_with-apart (a ∷ x ++ s) d y (ground arith) c in
    let there : starts_with (a ∷ x ++ (s ++ y)) d ≡ false = rw (← append_assoc x s y) apart in
    let later = find_shift x s y d (ground arith) cs in rw (there, find) (rw later (ground arith))

pub longest_shift :
    (x s y d e : Bytes)
    → find (x ++ s) d ≡ none
    → find (x ++ s) e ≡ none
    → IsClear x s d
    → IsClear x s e
    → longest_delimiter_prefix_suffix (x ++ (s ++ y)) d e
      ≡ longest_delimiter_prefix_suffix (s ++ y) d e
unfolding find longest_delimiter_prefix_suffix is_delimiter_prefix
longest_shift [] s y d e h g c c' = refl
longest_shift (a ∷ x) s y d e h g (c, cs) (c', cs') =
    let (_, one) = starts_with-apart (a ∷ x ++ s) d y (ground arith) c in
    let (_, two) = starts_with-apart (a ∷ x ++ s) e y (ground arith) c' in
    let one' = subst (λ (z : Bytes). starts_with d (a ∷ z) ≡ false) (append_assoc x s y) one in
    let two' = subst (λ (z : Bytes). starts_with e (a ∷ z) ≡ false) (append_assoc x s y) two in
    let later = longest_shift x s y d e (ground arith) (ground arith) cs cs' in ground arith

pub longest-le : (x d e : Bytes) → longest_delimiter_prefix_suffix x d e ≤ length x
unfolding longest_delimiter_prefix_suffix
longest-le [] d e = omega arith
longest-le (a ∷ x) d e = ground (arith, longest-le x d e)

-- The same for a search that begins at `from`.
pub find-split_from :
    (from : ℕ) (x d : Bytes) (n : ℕ)
    → 1 ≤ length d
    → find (drop from x) d ≡ some n
    → take (from + n) x ++ (d ++ drop (from + n + length d) x) ≡ x
find-split_from zero x d n h e = let same : 0 + n ≡ n = omega arith in rw same (find-split x d n e)
find-split_from (suc from) [] d n h e = absurd (omega (arith, find-length [] d n e))
find-split_from (suc from) (a ∷ x) d n h e =
    let first : suc from + n ≡ suc (from + n) = omega arith in
    let second : suc from + n + length d ≡ suc (from + n + length d) = omega arith in
    rw (second, first) (ap (λ (z : Bytes). a ∷ z) (find-split_from from x d n h e))

-- What may begin a delimiter is no longer than one.
pub longest-le_delimiters :
    (x d e : Bytes) → longest_delimiter_prefix_suffix x d e ≤ max (length d) (length e)
unfolding longest_delimiter_prefix_suffix is_delimiter_prefix
longest-le_delimiters [] d e = omega arith
longest-le_delimiters (a ∷ x) d e =
    ground (
      arith,
      longest-le_delimiters x d e,
      starts_with-length d (a ∷ x),
      starts_with-length e (a ∷ x),
    )
