-- ===== src/Notifications/RoundTrip.antt =====
-- Reading a template loses nothing of it.
use Prim.Native.Char.{Char, code}
use text.Mathlib.TextLemmas.{append-nil, cons-append, nil-append}
use pulse_crm.Prelude.{
  ℕ, ◌==◌, leb, Bool, false, ◌||◌, ◌≡◌, refl, sym, ap, ◌∙◌, String, text_append, text_append_assoc,
  str_eq, eq_iff, true, not, ◌&&◌, Option, none, some, List, [], ◌∷◌, All, is_blank, Bool-cases,
  inl, inr, arith, ok,
}
use pulse_crm.Notifications.Template.{
  Piece, literal, placeholder, is_name_char, literals, one, scan, pieces, Variables, variable,
  render_pieces, render_notification_template, print,
}

one-append : (c : Char) (s : String) → text_append (one c) s ≡ String.◌∷◌ c s
one-append c s = cons-append c "" s ∙ ap (String.◌∷◌ c) (nil-append s)

starts : (c : Char) (t s : String) → str_eq (one c) t ≡ true → text_append t s ≡ String.◌∷◌ c s
starts c t s e = ap (λ u. text_append u s) (sym ((eq_iff (one c) t).0 e)) ∙ one-append c s

print-literals : (s : String) (ps : List Piece) → print (literals s ps) ≡ text_append s (print ps)
unfolding print literals
print-literals String.[] ps = sym (nil-append (print ps))
print-literals (String.◌∷◌ c s) ps =
    ap (String.◌∷◌ c) (print-literals s ps) ∙ sym (cons-append c s (print ps))

-- What was collected behind a brace, and the rest of the text.
abbrev behind : String → String → String
behind name s = text_append "{" (text_append name s)

print-literals_name :
    (name s : String) (ps : List Piece)
    → print ps ≡ s
    → print (literals (text_append "{" name) ps) ≡ behind name s
print-literals_name name s ps h =
    print-literals (text_append "{" name) ps
    ∙ ap (text_append (text_append "{" name)) h
    ∙ text_append_assoc "{" name s

-- The text that is left, with what was collected.
abbrev left : Option String → String → String
left none s = s
left (some name) s = behind name s

print-scan : (o : Option String) (s : String) → print (scan o s) ≡ left o s
unfolding scan print
print-scan none String.[] = refl
print-scan (some name) String.[] = print-literals_name name "" [] refl
print-scan none (String.◌∷◌ c s) = elim (Bool-cases (str_eq (one c) "{")) [
  | inl e ↦ rw e (print-scan (some "") s ∙ ap (text_append "{") (nil-append s) ∙ starts c "{" s e)
  | inr e ↦ rw e (ap (String.◌∷◌ c) (print-scan none s))
]
print-scan (some name) (String.◌∷◌ c s) =
    let rest = print-scan none s in
    elim (Bool-cases (is_name_char name (code c))) [
      | inl e ↦ rw e (
          print-scan (some (text_append name (one c))) s
          ∙ ap (text_append "{")
              (text_append_assoc name (one c) s ∙ ap (text_append name) (one-append c s)))
      | inr e ↦ elim (Bool-cases (str_eq (one c) "}" && not (is_blank name))) [
        | inl f ↦
            let ends = ap (text_append "}") rest ∙ starts c "}" s (ground (arith, f)) in
            rw (e, f) (ap (λ r. text_append "{" (text_append name r)) ends)
        | inr f ↦ elim (Bool-cases (str_eq (one c) "{")) [
          | inl g ↦
              let again =
                print-scan (some "") s ∙ ap (text_append "{") (nil-append s) ∙ starts c "{" s g in
              rw (e, f, g) (print-literals_name name (String.◌∷◌ c s) (scan (some "") s) again)
          | inr g ↦
              rw (e, f, g)
                (print-literals_name name (String.◌∷◌ c s) (literal c ∷ scan none s)
                  (ap (String.◌∷◌ c) rest))
        ]
      ]
    ]

-- The letters and digits of a placeholder's name, and such names.
abbrev is_letter : ℕ → Bool
is_letter n = (leb 65 n && leb n 90) || n == 95 || (leb 97 n && leb n 122)

abbrev is_digit : ℕ → Bool
is_digit n = leb 48 n && leb n 57

abbrev IsNameRest : String → Type 0
IsNameRest String.[] = Unit
IsNameRest (String.◌∷◌ c s) = ((is_letter (code c) || is_digit (code c)) ≡ true) × IsNameRest s

abbrev IsName : String → Type 0
IsName String.[] = true ≡ false
IsName (String.◌∷◌ c s) = (is_letter (code c) ≡ true) × IsNameRest s

-- A piece of a template that is written out: a character that opens no placeholder, or a name.
abbrev pub IsPiece : Piece → Type 0
IsPiece (literal c) = str_eq (one c) "{" ≡ false
IsPiece (placeholder name) = IsName name

not_blank : (d : Char) (n : String) → is_blank (String.◌∷◌ d n) ≡ false
unfolding is_blank
not_blank d n = elim (Bool-cases (str_eq (String.◌∷◌ d n) "")) [
  | inl e ↦ let same : String.◌∷◌ d n ≡ String.[] = (eq_iff (String.◌∷◌ d n) "").0 e in cc same
  | inr e ↦ e
]

name_char :
    (d c : Char) (n : String)
    → (is_letter (code c) || is_digit (code c)) ≡ true
    → is_name_char (String.◌∷◌ d n) (code c) ≡ true
unfolding is_name_char
name_char d c n h = ground (arith, h, not_blank d n)

no_name_char : (d : Char) (n : String) → is_name_char (String.◌∷◌ d n) (code "}") ≡ false
unfolding is_name_char
no_name_char d n = ground (arith, not_blank d n)

scan-name :
    (d : Char) (n rest s : String)
    → IsNameRest rest
    → scan (some (String.◌∷◌ d n)) (text_append rest (text_append "}" s))
      ≡ placeholder (text_append (String.◌∷◌ d n) rest) ∷ scan none s
unfolding scan
scan-name d n String.[] s h =
    let shape = nil-append (text_append "}" s) ∙ one-append "}" s in
    rw (shape, append-nil (String.◌∷◌ d n), no_name_char d n, not_blank d n) refl
scan-name d n (String.◌∷◌ c rest) s (hc, h) =
    let again = scan-name d (text_append n (one c)) rest s h in
    let longer = cons-append d n (one c) in
    let shape = cons-append c rest (text_append "}" s) in
    let whole =
      text_append_assoc (String.◌∷◌ d n) (one c) rest
      ∙ ap (text_append (String.◌∷◌ d n)) (one-append c rest) in
    rw (shape, name_char d c n hc, longer)
      (again
        ∙ ap (λ t. placeholder t ∷ scan none s) (ap (λ u. text_append u rest) (sym longer) ∙ whole))

first_char : (c : Char) → is_letter (code c) ≡ true → is_name_char "" (code c) ≡ true
unfolding is_name_char
first_char c h = ground (arith, h)

scan-placeholder :
    (name s : String)
    → IsName name
    → scan none (text_append "{" (text_append name (text_append "}" s)))
      ≡ placeholder name ∷ scan none s
unfolding scan is_blank
scan-placeholder String.[] s h = cc h
scan-placeholder (String.◌∷◌ c rest) s (hc, h) =
    let opened = one-append "{" (text_append (String.◌∷◌ c rest) (text_append "}" s)) in
    let shape = cons-append c rest (text_append "}" s) in
    rw (opened, shape, first_char c hc)
      (ap (λ u. scan (some u) (text_append rest (text_append "}" s))) (nil-append (one c))
        ∙ scan-name c "" rest s h
        ∙ ap (λ t. placeholder t ∷ scan none s) (one-append c rest))

pieces-print : (ps : List Piece) → All IsPiece ps → pieces (print ps) ≡ ps
unfolding pieces print scan
pieces-print [] h = refl
pieces-print (literal c ∷ ps) (hc, h) = rw hc (ap (λ r. literal c ∷ r) (pieces-print ps h))
pieces-print (placeholder name ∷ ps) (hn, h) =
    scan-placeholder name (print ps) hn ∙ ap (λ r. placeholder name ∷ r) (pieces-print ps h)

-- The text with the values in place of the placeholders.
pub substituted : (String → String) → List Piece → String
substituted value [] = ""
substituted value (literal c ∷ ps) = String.◌∷◌ c (substituted value ps)
substituted value (placeholder name ∷ ps) = text_append (value name) (substituted value ps)

abbrev pub IsGiven : Variables → (String → String) → Piece → Type 0
IsGiven variables value (literal c) = Unit
IsGiven variables value (placeholder name) = variable name variables ≡ some (value name)

render-substituted :
    (variables : Variables) (value : String → String) (ps : List Piece)
    → All (IsGiven variables value) ps
    → render_pieces variables ps ≡ ok (substituted value ps)
unfolding render_pieces substituted
render-substituted variables value [] h = refl
render-substituted variables value (literal c ∷ ps) (h, hs) =
    rw (render-substituted variables value ps hs) refl
render-substituted variables value (placeholder name ∷ ps) (h, hs) =
    rw (h, render-substituted variables value ps hs) refl

-- A template that is written from pieces, characters that open no placeholder and placeholders of
-- letters, digits and underscores that begin with no digit, is read as those pieces, and rendered
-- with the value that the variables give in place of each placeholder. What is read of any template
-- is written out as that template.
pub render_notification_template-print :
    (variables : Variables) (value : String → String) (ps : List Piece) (template : String)
    → All IsPiece ps
    → All (IsGiven variables value) ps
    → (pieces (print ps) ≡ ps)
      × (render_notification_template (print ps) variables ≡ ok (substituted value ps))
      × (print (pieces template) ≡ template)
unfolding render_notification_template pieces
render_notification_template-print variables value ps template written given =
    let same = pieces-print ps written in
    (
      same,
      ap (render_pieces variables) same ∙ render-substituted variables value ps given,
      print-scan none template,
    )
