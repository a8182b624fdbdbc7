-- ===== src/Streams/Shell.antt =====
-- The arguments of a command, quoted for a shell: ShellQuoteArguments of utils/utils.go.
pub mod Words
mod Tests
use docker.Common.{
  ℕ, Bool, true, false, ◌&&◌, ◌||◌, not, List, [], ◌∷◌, ◌++◌, Text, ◌==◌, if◌then◌else◌, nat_eq,
  text_eq,
}
use docker.Common.Maps.{contains}

-- The characters \ ' " ` $ { [ | & ; < > ( ) ~ * ? ! and blank, tab and new line
abbrev pub special : Text
special =
    92 ∷ 39 ∷ 34 ∷ 96 ∷ 36 ∷ 123 ∷ 91 ∷ 124 ∷ 38 ∷ 59 ∷ 60 ∷ 62 ∷ 40 ∷ 41 ∷ 126 ∷ 42 ∷ 63 ∷ 33 ∷ 32
    ∷ 9 ∷ 10 ∷ []

-- strings.ContainsAny(word, special)
abbrev pub contains_any : Text → Bool
contains_any [] = false
contains_any (c ∷ s) = contains c special || contains_any s

-- A quote closes the quotation, is escaped, and opens it again.
unfoldable pub escaped : Text → Text
escaped [] = []
escaped (c ∷ s) = let rest = escaped s in if c == 39 then 39 ∷ 92 ∷ 39 ∷ 39 ∷ rest else c ∷ rest

unfoldable pub quote : Text → Text
unfolding escaped
quote word =
    if not (word == []) && not (contains_any word) then word else 39 ∷ (escaped word ++ (39 ∷ []))

unfoldable pub shell_quote_arguments : List Text → Text
unfolding quote
shell_quote_arguments [] = []
shell_quote_arguments (arg ∷ []) = quote arg
shell_quote_arguments (arg ∷ next ∷ args) = quote arg ++ (32 ∷ shell_quote_arguments (next ∷ args))
