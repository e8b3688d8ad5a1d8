-- ===== src/Handlers/Escape.antt =====
-- What `escape_html` writes.
use mathlib.Core.List.{append_assoc}
use filehost.Base.{
  ℕ, ◌≡◌, refl, ap, ◌∙◌, ◌≢◌, inl, inr, [], ◌∷◌, ◌++◌, All, All-append, Bytes, ascii, ◌==◌,
  Bool-cases, if◌then◌else◌, arith,
}
use filehost.Handlers.Reply.{replace, escape_html}

-- The entity of a character, or the character.
abbrev pub escape_char : ℕ → Bytes
escape_char c =
    if c == 38
    then ascii "&amp;"
    else if c == 60
    then ascii "&lt;"
    else if c == 62
    then ascii "&gt;"
    else if c == 34
    then ascii "&quot;"
    else if c == 39
    then ascii "&#039;"
    else c ∷ []

abbrev pub escape_each : Bytes → Bytes
escape_each [] = []
escape_each (c ∷ cs) = escape_char c ++ escape_each cs

replace-append :
    (c : ℕ) (by xs ys : Bytes) → replace c by (xs ++ ys) ≡ replace c by xs ++ replace c by ys
unfolding replace
replace-append c by [] ys = refl
replace-append c by (x ∷ xs) ys = elim (Bool-cases (x == c)) [
  | inl e ↦
      ground
        (arith, e, replace-append c by xs ys, append_assoc by (replace c by xs) (replace c by ys))
  | inr e ↦ ground (arith, e, replace-append c by xs ys)
]

escape_html-append : (xs ys : Bytes) → escape_html (xs ++ ys) ≡ escape_html xs ++ escape_html ys
unfolding escape_html
escape_html-append xs ys = simp (
  replace-append 38 (ascii "&amp;"),
  replace-append 60 (ascii "&lt;"),
  replace-append 62 (ascii "&gt;"),
  replace-append 34 (ascii "&quot;"),
  replace-append 39 (ascii "&#039;"),
)

escape_html_char : (c : ℕ) → escape_html (c ∷ []) ≡ escape_char c
unfolding escape_html replace
escape_html_char c = ground arith

escape_html_nil : escape_html [] ≡ []
unfolding escape_html replace
escape_html_nil = refl

-- The five replacements, one after the other, write the entity of each character of the text once:
-- what an earlier one wrote is not escaped again by a later one.
pub escape_html_lem : (s : Bytes) → escape_html s ≡ escape_each s
escape_html_lem [] = escape_html_nil
escape_html_lem (c ∷ cs) =
    escape_html-append (c ∷ []) cs
    ∙ ap (λ t. t ++ escape_html cs) (escape_html_char c)
    ∙ ap (λ t. escape_char c ++ t) (escape_html_lem cs)

-- A character that ends neither a text nor an attribute of HTML.
abbrev pub IsInert : ℕ → Type 0
IsInert c = (c ≢ 60) × (c ≢ 62) × (c ≢ 34) × (c ≢ 39)

escape_char-IsInert : (c : ℕ) → All IsInert (escape_char c)
escape_char-IsInert c = ground arith

-- No text escapes into markup: what `escape_html` writes has no angle bracket and no quote.
pub escape_html-IsInert : (s : Bytes) → All IsInert (escape_html s)
escape_html-IsInert s = rw (escape_html_lem s) (go s)
  where
    go : (s : Bytes) → All IsInert (escape_each s)
    go [] = tt
    go (c ∷ cs) =
        All-append IsInert (escape_char c) (escape_each cs) (escape_char-IsInert c) (go cs)
