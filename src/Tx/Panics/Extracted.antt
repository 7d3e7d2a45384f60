-- ===== src/Tx/Panics/Extracted.antt =====
-- mod.rs, `extract_panic`, by what occurs in the text of the error.
use mathlib.Core.Bool.{false≢true}
use near_mock.Base.{
  ℕ, ◌≤◌, ◌≡◌, ◌⊎◌, refl, sym, ap, ap₂, subst, ◌∙◌, true, false, List, [], ◌∷◌, ◌++◌, Option, none,
  some, Bytes, arith, length, drop, starts_with, starts_with-append, ◌==◌, Bool-cases, Option-cases,
  inl, inr,
}
use near_mock.Base.{ℕ_eq, bytes_Key}
use near_mock.Base.Trim.{trim_end}
use near_mock.Tx.Panics.{
  after_text, contains_text, classes, marker, panicked_text, class_of, first_line, panic_line,
  extract_panic,
}

-- A text with some bytes before it and some behind it.
abbrev pub Occurs : Bytes → Bytes → Type 0
Occurs needle raw = (a : Bytes) × (b : Bytes) × (raw ≡ a ++ (needle ++ b))

-- No occurrence begins before the end of `pre`.
abbrev pub IsFirst : Bytes → Bytes → Bytes → Type 0
IsFirst needle pre raw = (a b : Bytes) → raw ≡ a ++ (needle ++ b) → length pre ≤ length a

-- The class of the first text of a list that occurs, if one does.
pub data Classed (raw : Bytes) : List (Bytes × Bytes) → Option Bytes → Type 0 where
  unclassed : Classed raw [] none
  here :
      (needle class : Bytes) (r : List (Bytes × Bytes))
      → Occurs needle raw
      → Classed raw ((needle, class) ∷ r) (some class)
  later :
      (needle class : Bytes) (r : List (Bytes × Bytes)) (o : Option Bytes)
      → ¬ Occurs needle raw
      → Classed raw r o
      → Classed raw ((needle, class) ∷ r) o

abbrev pub IsLine : Bytes → Type 0
IsLine [] = Unit
IsLine (b ∷ bs) = ((b == 10) ≡ false) × IsLine bs

-- The end of the text, or a line break.
abbrev pub EndsLine : Bytes → Type 0
EndsLine [] = Unit
EndsLine (b ∷ bs) = (b == 10) ≡ true

-- The first marker, and the line behind it.
pub record Marked (raw line : Bytes) : Type 0 where
  pub pre : Bytes
  pub rest : Bytes
  pub whole : raw ≡ pre ++ (marker ++ (line ++ rest))
  pub first : IsFirst marker pre raw
  pub is_line : IsLine line
  pub ends : EndsLine rest

-- What is taken from a text.
pub data Extracted (raw : Bytes) : Option Bytes → Type 0 where
  engine : (class : Bytes) → Classed raw classes (some class) → Extracted raw (some class)
  silent : Classed raw classes none → ¬ Occurs marker raw → Extracted raw none
  blank :
      (line : Bytes)
      → Classed raw classes none
      → Marked raw line
      → trim_end line ≡ []
      → Extracted raw none
  message :
      (line : Bytes) (b : ℕ) (msg : Bytes)
      → Classed raw classes none
      → Marked raw line
      → trim_end line ≡ b ∷ msg
      → Extracted raw (some (panicked_text ++ (b ∷ msg)))

starts_with-drop :
    (bs needle : Bytes) → starts_with bs needle ≡ true → bs ≡ needle ++ drop (length needle) bs
starts_with-drop bs [] e = refl
starts_with-drop [] (c ∷ cs) e = absurd (false≢true e)
starts_with-drop (b ∷ bs) (c ∷ cs) e =
    ap₂ ◌∷◌ (ground (arith, e)) (starts_with-drop bs cs (ground (arith, e)))

starts_with-false : (bs needle b : Bytes) → starts_with bs needle ≡ false → ¬ (bs ≡ needle ++ b)
starts_with-false bs needle b e same =
    false≢true (sym e ∙ ap (λ t. starts_with t needle) same ∙ starts_with-append needle b)

some-eq : (a b : Bytes) → some a ≡ some b → a ≡ b
some-eq a b e = cc

not_none : (a : Bytes) → ¬ (none ≡ some a)
not_none a e = cc

tail-eq : (b c : ℕ) (bs cs : Bytes) → b ∷ bs ≡ c ∷ cs → bs ≡ cs
tail-eq b c bs cs e = cc

after_text-none : (needle raw : Bytes) → after_text needle raw ≡ none → ¬ Occurs needle raw
unfolding after_text
after_text-none needle [] e ([], b, same) = starts_with-false [] needle b (ground (arith, e)) same
after_text-none needle [] e (d ∷ a, b, same) = cc
after_text-none needle (c ∷ bs) e ([], b, same) =
    starts_with-false (c ∷ bs) needle b (ground (arith, e)) same
after_text-none needle (c ∷ bs) e (d ∷ a, b, same) =
    after_text-none needle bs (ground (arith, e)) (a, b, tail-eq c d bs (a ++ (needle ++ b)) same)

IsFirst-cons :
    (needle pre : Bytes) (c : ℕ) (bs : Bytes)
    → starts_with (c ∷ bs) needle ≡ false
    → IsFirst needle pre bs
    → IsFirst needle (c ∷ pre) (c ∷ bs)
IsFirst-cons needle pre c bs e first [] b same = absurd (starts_with-false (c ∷ bs) needle b e same)
IsFirst-cons needle pre c bs e first (d ∷ a) b same =
    omega (arith, first a b (tail-eq c d bs (a ++ (needle ++ b)) same))

after_text-some :
    (needle raw rest : Bytes)
    → after_text needle raw ≡ some rest
    → (pre : Bytes) × (raw ≡ pre ++ (needle ++ rest)) × IsFirst needle pre raw
unfolding after_text
after_text-some [] [] rest e = ([], some-eq [] rest e, (λ a b s. omega arith))
after_text-some (p ∷ ps) [] rest e = absurd (not_none rest e)
after_text-some needle (c ∷ bs) rest e = elim (Bool-cases (starts_with (c ∷ bs) needle)) [
  | inl here_it ↦ (
    [],
    starts_with-drop (c ∷ bs) needle here_it
        ∙ ap (λ t. needle ++ t) (some-eq _ _ (sym (rw (here_it, after_text) refl) ∙ e)),
    (λ a b s. omega arith),
  )
  | inr not_here ↦
      let (pre, whole, first) = after_text-some needle bs rest (ground (arith, e, not_here)) in
      (c ∷ pre, ap (λ t. c ∷ t) whole, IsFirst-cons needle pre c bs not_here first)
]

contains_text-Occurs : (needle raw : Bytes) → contains_text needle raw ≡ true → Occurs needle raw
unfolding contains_text
contains_text-Occurs needle raw e = elim (Option-cases (after_text needle raw)) [
  | inl n ↦ absurd (false≢true (sym (rw (n, contains_text) refl) ∙ e))
  | inr (rest, s) ↦
      let (pre, whole, first) = after_text-some needle raw rest s in (pre, rest, whole)
]

contains_text-absent : (needle raw : Bytes) → contains_text needle raw ≡ false → ¬ Occurs needle raw
unfolding contains_text
contains_text-absent needle raw e = elim (Option-cases (after_text needle raw)) [
  | inl n ↦ after_text-none needle raw n
  | inr (rest, s) ↦ absurd (false≢true (sym e ∙ rw (s, contains_text) refl))
]

class_of-Classed : (cs : List (Bytes × Bytes)) (raw : Bytes) → Classed raw cs (class_of cs raw)
unfolding class_of
class_of-Classed [] raw = unclassed
class_of-Classed ((needle, class) ∷ r) raw = elim (Bool-cases (contains_text needle raw)) [
  | inl e ↦ rw (e, class_of) (here needle class r (contains_text-Occurs needle raw e))
  | inr e ↦
      rw (e, class_of)
        (later needle class r (class_of r raw) (contains_text-absent needle raw e)
          (class_of-Classed r raw))
]

first_line-split :
    (bs : Bytes)
    → (rest : Bytes) × (bs ≡ first_line bs ++ rest) × IsLine (first_line bs) × EndsLine rest
unfolding first_line
first_line-split [] = ([], refl, tt, tt)
first_line-split (b ∷ bs) = elim (Bool-cases (b == 10)) [
  | inl e ↦ rw (e, first_line) (b ∷ bs, refl, tt, e)
  | inr e ↦
      let (rest, whole, line, ends) = first_line-split bs in
      rw (e, first_line) (rest, ap (λ t. b ∷ t) whole, (e, line), ends)
]

trimmed-cases : (bs : Bytes) → (bs ≡ []) ⊎ ((b : ℕ) × (r : Bytes) × (bs ≡ b ∷ r))
trimmed-cases [] = inl refl
trimmed-cases (b ∷ r) = inr (b, r, refl)

after_marker :
    (raw rest : Bytes)
    → Classed raw classes none
    → after_text marker raw ≡ some rest
    → Extracted raw (panic_line (trim_end (first_line rest)))
after_marker raw rest unclassed_text e =
    let (pre, whole, first) = after_text-some marker raw rest e in
    let (tail, split, line, ends) = first_line-split rest in
    let marked : Marked raw (first_line rest) = record {
      pre = pre;
      rest = tail;
      whole = whole ∙ ap (λ t. pre ++ (marker ++ t)) split;
      first = first;
      is_line = line;
      ends = ends;
    } in
    elim (trimmed-cases (trim_end (first_line rest))) [
      | inl empty_line ↦ rw empty_line (blank (first_line rest) unclassed_text marked empty_line)
      | inr (b, r, some_line) ↦
          rw some_line (message (first_line rest) b r unclassed_text marked some_line)
    ]

-- What is taken from the text of an error, whatever it is: the class of the first text of an engine's
-- trap that occurs anywhere in it; where none does, the line behind the first marker, without the white
-- space at its end, whether a line break or the end of the text ends it; and nothing where there is no
-- marker or no such line.
pub extract_panic-Extracted : (raw : Bytes) → Extracted raw (extract_panic raw)
unfolding extract_panic
extract_panic-Extracted raw = elim (Option-cases (class_of classes raw)) [
  | inr (class, e) ↦
      rw (e, extract_panic)
        (engine class (subst (Classed raw classes) e (class_of-Classed classes raw)))
  | inl e ↦
      let unclassed_text = subst (Classed raw classes) e (class_of-Classed classes raw) in
      elim (Option-cases (after_text marker raw)) [
        | inl n ↦ rw (e, n, extract_panic) (silent unclassed_text (after_text-none marker raw n))
        | inr (rest, s) ↦ rw (e, s, extract_panic) (after_marker raw rest unclassed_text s)
      ]
]
