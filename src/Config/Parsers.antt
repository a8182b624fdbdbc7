-- ===== src/Config/Parsers.antt =====
-- Templates with colons, references `repository:tag` and options `key=value`: pkg/parsers/parsers.go.
pub mod Laws
mod Tests
use docker.Common.{
  ℕ, ◌≡◌, Bool, true, false, Option, none, some, List, [], ◌∷◌, ◌++◌, Text, codes, length, ◌==◌,
  if◌then◌else◌, nat_eq, text_eq,
}
use docker.Common.Results.{Result, ok, err}
use docker.Common.Maps.{lookup, insert}
use docker.Common.Strings.{has_byte, trim_space}
use docker.Common.Strings.Split.{split, cut_last}

-- A Go map from texts to texts.
abbrev pub Fields : Type 0
Fields = List (Text × Text)

-- `m[key]` on a map of texts: the empty text if the key is missing.
unfoldable pub field : Text → Fields → Text
unfolding lookup
field key m = elim (lookup key m) [ none ↦ [] | some value ↦ value ]

pub data ParseError : Type 0 where
  template_mismatch : Text → Text → ParseError
  no_key_value : Text → ParseError

-- A colon in the last place but for the tag separates the tag, unless a slash follows it.
unfoldable pub parse_repository_tag : Text → Text × Text
parse_repository_tag repos = elim (cut_last b':' repos) [
  | none ↦ (repos, [])
  | some (name, tag) ↦ if has_byte b'/' tag then (repos, []) else (name, tag)
]

-- The loop over the parts of the template: a part that is missing is the empty text.
unfoldable pub fill_template : List Text → List Text → Fields → Fields
unfolding insert
fill_template [] parts out = out
fill_template (t ∷ ts) [] out = fill_template ts [] (insert t [] out)
fill_template (t ∷ ts) (value ∷ parts) out = fill_template ts parts (insert t value out)

unfoldable pub part_parser : Text → Text → Result ParseError Fields
unfolding fill_template split
part_parser template data' =
    let template_parts = split b':' template in
    let parts = split b':' data' in
    if length parts == length template_parts
    then ok (fill_template template_parts parts [])
    else err (template_mismatch data' template)

-- strings.SplitN(opt, "=", 2): the texts before and behind the first separator.
unfoldable pub cut_first : ℕ → Text → Option (Text × Text)
cut_first sep [] = none
cut_first sep (c ∷ s) = elim (cut_first sep s) [
  | none ↦ if c == sep then some ([], s) else none
  | some (a, b) ↦ if c == sep then some ([], s) else some (c ∷ a, b)
]

unfoldable pub parse_key_value_opt : Text → Result ParseError (Text × Text)
parse_key_value_opt opt = elim (cut_first b'=' opt) [
  | none ↦ err (no_key_value opt)
  | some (key, value) ↦ ok (trim_space key, trim_space value)
]
