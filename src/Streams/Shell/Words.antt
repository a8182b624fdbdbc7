-- ===== src/Streams/Shell/Words.antt =====
-- A shell reads the arguments back.
use docker.Common.{
  ℕ, ◌≡◌, ◌∙◌, refl, sym, ap, Bool, true, false, ◌&&◌, ◌||◌, not, Option, none, some, inl, inr,
  List, [], ◌∷◌, ◌++◌, append_nil, append_assoc, Text, arith, Bool-cases, or_false, ◌==◌, ==_iff,
  if◌then◌else◌, nat_eq, text_eq,
}
use docker.Common.Maps.{contains}
use docker.Streams.Shell.{special, contains_any, escaped, quote, shell_quote_arguments}

-- What a shell makes of a character outside of quotes, before or in a word.
pub data Class : Type 0 where
  blank quote_mark backslash comment_mark active letter : Class

-- The operators | & ; < > ( ), the starts of expansions $ ` ~ { and !, the double quote, and the
-- patterns * ? and [
abbrev pub is_active : ℕ → Bool
is_active c =
    c == b'|'
    || (c == b'&'
        || (c == b';'
            || (c == b'<'
                || (c == b'>'
                    || (c == b'('
                        || (c == b')'
                            || (c == b'$'
                                || (c == b'`'
                                    || (c == b'~'
                                        || (c == b'{'
                                            || (c == b'!'
                                                || (c == 34
                                                    || (c == b'*'
                                                        || (c == b'?' || c == b'['))))))))))))))

abbrev pub class_of : Option Text → ℕ → Class
class_of w c =
    if c == b' ' || (c == 9 || c == 10)
    then blank
    else if c == 39
    then quote_mark
    else if c == 92
    then backslash
    else if is_active c
    then active
    else letter_of w c
  where
    letter_of : Option Text → ℕ → Class
    letter_of none c = if c == b'#' then comment_mark else letter
    letter_of (some w) c = letter

pub data Mode : Type 0 where
  plain quoted after_backslash comment : Mode

abbrev pub word : Option Text → Text
word none = []
word (some w) = w

abbrev pub push : Option Text → Option (List Text) → Option (List Text)
push none words = words
push (some w) none = none
push (some w) (some words) = some (w ∷ words)

-- The words that a POSIX shell reads, of which this part of its grammar is all that matters: blanks
-- part them, nothing is special in single quotes, a backslash takes the next character as it is, and a
-- `#` at the start of a word begins a comment up to the end of the line. It is none where a quotation is
-- open at the end or an active character stands outside of quotes: what the shell does is then not to
-- pass on words as they are. What a shell makes of its words (assignments, reserved words) is left out.
unfoldable pub words_from : Mode → Option Text → Text → Option (List Text)
words_from plain w [] = push w (some [])
words_from quoted w [] = none
words_from after_backslash w [] = none
words_from comment w [] = push w (some [])
words_from comment w (c ∷ s) = elim (c == 10) [
  | true ↦ words_from plain w s
  | false ↦ words_from comment w s
]
words_from after_backslash w (c ∷ s) = words_from plain (some (word w ++ (c ∷ []))) s
words_from quoted w (c ∷ s) = elim (c == 39) [
  | true ↦ words_from plain w s
  | false ↦ words_from quoted (some (word w ++ (c ∷ []))) s
]
words_from plain w (c ∷ s) = elim (class_of w c) [
  | blank ↦ push w (words_from plain none s)
  | quote_mark ↦ words_from quoted (some (word w)) s
  | backslash ↦ words_from after_backslash (some (word w)) s
  | comment_mark ↦ words_from comment none s
  | active ↦ none
  | letter ↦ words_from plain (some (word w ++ (c ∷ []))) s
]

unfoldable pub shell_words : Text → Option (List Text)
unfolding words_from
shell_words s = words_from plain none s

append_snoc : (a : Text) (c : ℕ) (s : Text) → (a ++ (c ∷ [])) ++ s ≡ a ++ (c ∷ s)
append_snoc [] c s = refl
append_snoc (x ∷ a) c s = ap (λ l. x ∷ l) (append_snoc a c s)

-- Not the start of a comment: in a word, or no `#`
abbrev no_comment : Option Text → ℕ → Bool
no_comment none c = not (c == b'#')
no_comment (some w) c = true

class_of-letter :
    (w : Option Text) (c : ℕ)
    → contains c special ≡ false
    → no_comment w c ≡ true
    → class_of w c ≡ letter
unfolding contains
class_of-letter none c e n = ground (arith, e)
class_of-letter (some w) c e n = ground (arith, e)

read_letter :
    (w : Option Text) (c : ℕ) (s : Text)
    → contains c special ≡ false
    → no_comment w c ≡ true
    → words_from plain w (c ∷ s) ≡ words_from plain (some (word w ++ (c ∷ []))) s
unfolding words_from
read_letter w c s e n =
    ap
      (λ k. elim k [
        | blank ↦ push w (words_from plain none s)
        | quote_mark ↦ words_from quoted (some (word w)) s
        | backslash ↦ words_from after_backslash (some (word w)) s
        | comment_mark ↦ words_from comment none s
        | active ↦ none
        | letter ↦ words_from plain (some (word w ++ (c ∷ []))) s
      ])
      (class_of-letter w c e n)

read_simple :
    (acc w s : Text)
    → contains_any w ≡ false
    → words_from plain (some acc) (w ++ s) ≡ words_from plain (some (acc ++ w)) s
unfolding words_from
read_simple acc [] s e = ap (λ l. words_from plain (some l) s) (sym (append_nil acc))
read_simple acc (c ∷ w) s e =
    read_letter (some acc) c (w ++ s) (or_false _ _ e).0 refl
    ∙ read_simple (acc ++ (c ∷ [])) w s (or_false _ _ e).1
    ∙ ap (λ l. words_from plain (some l) s) (append_snoc acc c w)

read_inside :
    (acc : Text) (c : ℕ) (s : Text)
    → (c == 39) ≡ false
    → words_from quoted (some acc) (c ∷ s) ≡ words_from quoted (some (acc ++ (c ∷ []))) s
unfolding words_from
read_inside acc c s e =
    ap
      (λ b. elim b [
        | true ↦ words_from plain (some acc) s
        | false ↦ words_from quoted (some (acc ++ (c ∷ []))) s
      ])
      e

read_quoted :
    (acc w s : Text)
    → words_from quoted (some acc) (escaped w ++ (39 ∷ s)) ≡ words_from plain (some (acc ++ w)) s
unfolding words_from escaped contains
read_quoted acc [] s = ap (λ l. words_from plain (some l) s) (sym (append_nil acc))
read_quoted acc (c ∷ w) s = elim (Bool-cases (c == 39)) [
  | inl e ↦ rw e (
      read_quoted (acc ++ (39 ∷ [])) w s
      ∙ ap (λ l. words_from plain (some l) s) (append_snoc acc 39 w)
      ∙ ap (λ k. words_from plain (some (acc ++ (k ∷ w))) s) (sym ((==_iff c 39).0 e)))
  | inr e ↦
      ap
        (λ (b : Bool).
          words_from quoted (some acc)
            ((if b then 39 ∷ 92 ∷ 39 ∷ 39 ∷ escaped w else c ∷ escaped w) ++ (39 ∷ s)))
        e
      ∙ read_inside acc c (escaped w ++ (39 ∷ s)) e
      ∙ read_quoted (acc ++ (c ∷ [])) w s
      ∙ ap (λ l. words_from plain (some l) s) (append_snoc acc c w)
]

quote_simple : (w : Text) → (w == []) ≡ false → contains_any w ≡ false → quote w ≡ w
unfolding quote
quote_simple w e f = rw (e, f) refl

quote_other :
    (w : Text)
    → (not (w == []) && not (contains_any w)) ≡ false
    → quote w ≡ 39 ∷ (escaped w ++ (39 ∷ []))
unfolding quote
quote_other w e = rw e refl

-- A word that begins with `#`
abbrev pub is_comment : Text → Bool
is_comment [] = false
is_comment (c ∷ w) = c == b'#'

abbrev pub has_comment : List Text → Bool
has_comment [] = false
has_comment (w ∷ ws) = is_comment w || has_comment ws

read_word :
    (w s : Text)
    → contains_any w ≡ false
    → (w == []) ≡ false
    → is_comment w ≡ false
    → words_from plain none (w ++ s) ≡ words_from plain (some w) s
read_word [] s e n h = absurd (ground (arith, n))
read_word (c ∷ w) s e n h =
    read_letter none c (w ++ s) (or_false _ _ e).0 (ap not h)
    ∙ read_simple (c ∷ []) w s (or_false _ _ e).1

read_quote :
    (w s : Text)
    → is_comment w ≡ false
    → words_from plain none (quote w ++ s) ≡ words_from plain (some w) s
unfolding words_from contains
read_quote w s h = elim (Bool-cases (not (w == []) && not (contains_any w))) [
  | inl e ↦
      let n : (w == []) ≡ false = ground (arith, e) in
      let f : contains_any w ≡ false = ground (arith, e) in
      ap (λ l. words_from plain none (l ++ s)) (quote_simple w n f) ∙ read_word w s f n h
  | inr e ↦
      ap (λ l. words_from plain none (l ++ s)) (quote_other w e)
      ∙ ap (λ l. words_from quoted (some []) l) (append_assoc (escaped w) (39 ∷ []) s)
      ∙ read_quoted [] w s
]

-- A shell reads the quoted arguments back as they were, whatever characters they hold, the empty
-- argument also, if none begins with `#`.
pub shell_words-shell_quote_arguments :
    (args : List Text)
    → has_comment args ≡ false
    → shell_words (shell_quote_arguments args) ≡ some args
unfolding shell_words shell_quote_arguments words_from contains
shell_words-shell_quote_arguments [] h = refl
shell_words-shell_quote_arguments (arg ∷ []) h =
    ap (λ l. words_from plain none l) (sym (append_nil (quote arg)))
    ∙ read_quote arg [] (or_false _ _ h).0
shell_words-shell_quote_arguments (arg ∷ next ∷ args) h =
    read_quote arg (32 ∷ shell_quote_arguments (next ∷ args)) (or_false _ _ h).0
    ∙ ap (push (some arg)) (shell_words-shell_quote_arguments (next ∷ args) (or_false _ _ h).1)
