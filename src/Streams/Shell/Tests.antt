-- ===== src/Streams/Shell/Tests.antt =====
-- Arguments with a blank, a quote and a `#`.
use docker.Common.{◌≡◌, refl, some, List, [], ◌∷◌, ◌++◌, Text, codes, text_eq, nat_eq}
use docker.Common.Maps.{contains}
use docker.Streams.Shell.{escaped, quote, shell_quote_arguments}
use docker.Streams.Shell.Words.{words_from, shell_words, shell_words-shell_quote_arguments}

abbrev arguments : List Text
arguments = codes "echo" ∷ codes "it's" ∷ [] ∷ []

quoted_arguments :
    shell_quote_arguments arguments
    ≡ codes "echo '" ++ (105 ∷ 116 ∷ 39 ∷ 92 ∷ 39 ∷ 39 ∷ 115 ∷ 39 ∷ 32 ∷ 39 ∷ 39 ∷ [])
unfolding shell_quote_arguments quote escaped contains
quoted_arguments = refl

shell_words-shell_quote_arguments_example :
    shell_words (shell_quote_arguments arguments) ≡ some arguments
shell_words-shell_quote_arguments_example = shell_words-shell_quote_arguments arguments refl

-- An argument with `#` in front is not quoted, and the shell takes it and what follows for a comment.
lost_argument :
    shell_words (shell_quote_arguments (codes "echo" ∷ codes "#1" ∷ codes "a b" ∷ []))
    ≡ some (codes "echo" ∷ [])
unfolding shell_words words_from shell_quote_arguments quote escaped contains
lost_argument = refl
