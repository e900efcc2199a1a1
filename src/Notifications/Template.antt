-- ===== src/Notifications/Template.antt =====
-- backend/app/integrations/notifications.py, `render_notification_template`. The search for
-- `\{([A-Za-z_][A-Za-z0-9_]*)\}` reads the text once: behind a brace it collects a name, and what
-- turns out to be no placeholder is text. The error on missing variables leaves out their names.
use Prim.Native.Char.{Char, code}
use pulse_crm.Prelude.{
  ℕ, String, text_append, str_eq, Bool, not, ◌&&◌, ◌||◌, Option, none, some, List, [], ◌∷◌, ◌==◌,
  leb, if◌then◌else◌, is_blank, or_else, Result, ok, err, value_error, ◌>>=◌,
}

pub data Piece : Type 0 where
  literal : Char → Piece
  placeholder : String → Piece

is_name_start : ℕ → Bool
is_name_start n = (leb 65 n && leb n 90) || n == 95 || (leb 97 n && leb n 122)

unfoldable pub is_name_char : String → ℕ → Bool
unfolding is_name_start
is_name_char name n = is_name_start n || (not (is_blank name) && leb 48 n && leb n 57)

unfoldable pub literals : String → List Piece → List Piece
literals String.[] ps = ps
literals (String.◌∷◌ c s) ps = literal c ∷ literals s ps

abbrev pub one : Char → String
one c = String.◌∷◌ c ""

-- The pieces of a template: outside a brace, and behind one after the characters of a name.
unfoldable pub scan : Option String → String → List Piece
scan none String.[] = []
scan none (String.◌∷◌ c s) =
    let inside = scan (some "") s in
    let outside = literal c ∷ scan none s in if str_eq (one c) "{" then inside else outside
scan (some name) String.[] = literals (text_append "{" name) []
scan (some name) (String.◌∷◌ c s) =
    let longer = scan (some (text_append name (one c))) s in
    let found = placeholder name ∷ scan none s in
    let again = literals (text_append "{" name) (scan (some "") s) in
    let given_up = literals (text_append "{" name) (literal c ∷ scan none s) in
    if is_name_char name (code c)
    then longer
    else if str_eq (one c) "}" && not (is_blank name)
    then found
    else if str_eq (one c) "{"
    then again
    else given_up

unfoldable pub pieces : String → List Piece
pieces = scan none

-- A value is None or the text that `str` makes of it.
abbrev pub Variables : Type 0
Variables = List (String × Option String)

unfoldable pub variable : String → Variables → Option String
variable key [] = none
variable key ((name, value) ∷ rest) =
    let later = variable key rest in if str_eq name key then some (or_else value "") else later

unfoldable pub render_pieces : Variables → List Piece → Result String
render_pieces variables [] = ok ""
render_pieces variables (literal c ∷ ps) = do
  rest ← render_pieces variables ps
  ok (String.◌∷◌ c rest)
render_pieces variables (placeholder key ∷ ps) = do
  value ← elim (variable key variables) [
    | none ↦ err (value_error "missing template variables")
    | some text ↦ ok text
  ]
  rest ← render_pieces variables ps
  ok (text_append value rest)

unfoldable pub render_notification_template : String → Variables → Result String
render_notification_template template variables = render_pieces variables (pieces template)

-- The text that pieces stand for.
unfoldable pub print : List Piece → String
print [] = ""
print (literal c ∷ ps) = String.◌∷◌ c (print ps)
print (placeholder name ∷ ps) = text_append "{" (text_append name (text_append "}" (print ps)))
