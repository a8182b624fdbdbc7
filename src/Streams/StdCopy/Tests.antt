-- ===== src/Streams/StdCopy/Tests.antt =====
-- Two writes of a container, read in pieces, and the theorem at them.
use docker.Common.{◌≡◌, refl, Bool, false, none, List, [], ◌∷◌, ◌++◌, codes, arith}
use docker.Streams.StdCopy.{
  Bytes, StdType, std_out, std_err, std_write, Written, all_written, std_copy,
}
use docker.Streams.StdCopy.RoundTrip.{std_copy-mux}

accept : Bool → Bytes → Written
accept is_err frame = all_written

abbrev frames : List (StdType × Bytes)
frames = (std_out, codes "hello") ∷ (std_err, codes "no") ∷ (std_out, codes "!") ∷ []

-- A read in the header, in a frame, and over two frames.
abbrev pieces : List Bytes
pieces =
    (1 ∷ 0 ∷ 0 ∷ [])
    ∷ (0 ∷ 0 ∷ 0 ∷ 0 ∷ 5 ∷ codes "hel")
    ∷ []
    ∷ (codes "lo" ++ std_write std_err (codes "no"))
    ∷ std_write std_out (codes "!")
    ∷ []

std_copy-mux_example :
    std_copy accept false pieces
    ≡ record { out = codes "hello!"; errs = codes "no"; written = 8; error = none }
unfolding accept
std_copy-mux_example =
    std_copy-mux accept (λ b f. refl) frames pieces (omega arith, (omega arith, (omega arith, tt)))
      refl
