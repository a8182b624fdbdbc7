-- ===== src/Config/Parsers/Tests.antt =====
-- References and templates that are read, and the theorems at concrete texts.
use docker.Common.{◌≡◌, refl, [], ◌∷◌, codes, text_eq, nat_eq}
use docker.Common.Results.{ok, err}
use docker.Common.Strings.{has_byte, trim_space}
use docker.Common.Strings.Split.{split, cut_last}
use docker.Config.Parsers.{
  cut_first, parse_repository_tag, part_parser, parse_key_value_opt, template_mismatch,
}

host_with_port :
    parse_repository_tag (codes "localhost:5000/samalba/hipache")
    ≡ (codes "localhost:5000/samalba/hipache", [])
unfolding parse_repository_tag cut_last has_byte
host_with_port = refl

short_template :
    part_parser (codes "a:b") (codes "x") ≡ err (template_mismatch (codes "x") (codes "a:b"))
unfolding part_parser split
short_template = refl

key_value : parse_key_value_opt (codes "k =a=b") ≡ ok (codes "k", codes "a=b")
unfolding parse_key_value_opt cut_first trim_space
key_value = refl

-- A no-break space in front and an ideographic one at the end.
wide_spaces :
    parse_key_value_opt (194 ∷ 160 ∷ b'k' ∷ b'=' ∷ b'v' ∷ 227 ∷ 128 ∷ 128 ∷ b' ' ∷ [])
    ≡ ok (codes "k", codes "v")
unfolding parse_key_value_opt cut_first trim_space
wide_spaces = refl
