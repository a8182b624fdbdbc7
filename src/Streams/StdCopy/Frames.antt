-- ===== src/Streams/StdCopy/Frames.antt =====
-- The frames of several writers, and the bytes of each stream in them.
use docker.Common.{
  ℕ, ◌+◌, ◌<◌, ◌≡◌, ◌∙◌, sym, ap, Bool, true, false, List, [], ◌∷◌, ◌++◌, length, append_nil,
  append_assoc, arith,
}
use docker.Streams.StdCopy.{Bytes, StdType, std_in, std_out, std_err, std_write, Copied, to_stream}

-- The frames of several writers on one connection, in the order of their writes.
abbrev pub mux : List (StdType × Bytes) → Bytes
mux [] = []
mux ((t, payload) ∷ frames) = std_write t payload ++ mux frames

abbrev pub is_err : StdType → Bool
is_err std_in = false
is_err std_out = false
is_err std_err = true

-- What was written to each stream.
abbrev pub demux : List (StdType × Bytes) → Copied → Copied
demux [] done = done
demux ((t, payload) ∷ frames) done = demux frames (to_stream (is_err t) payload done)

-- The bytes that were written to one stream, or, at `false`, to the others.
abbrev pub bytes_of : Bool → List (StdType × Bytes) → Bytes
bytes_of b [] = []
bytes_of true ((std_err, payload) ∷ frames) = payload ++ bytes_of true frames
bytes_of true ((std_in, payload) ∷ frames) = bytes_of true frames
bytes_of true ((std_out, payload) ∷ frames) = bytes_of true frames
bytes_of false ((std_err, payload) ∷ frames) = bytes_of false frames
bytes_of false ((std_in, payload) ∷ frames) = payload ++ bytes_of false frames
bytes_of false ((std_out, payload) ∷ frames) = payload ++ bytes_of false frames

abbrev pub count_payloads : List (StdType × Bytes) → ℕ
count_payloads [] = 0
count_payloads ((t, payload) ∷ frames) = length payload + count_payloads frames

pub demux_lem :
    (frames : List (StdType × Bytes)) (done : Copied)
    → demux frames done ≡ record {
      out = done.out ++ bytes_of false frames;
      errs = done.errs ++ bytes_of true frames;
      written = done.written + count_payloads frames;
      error = done.error;
    }
demux_lem [] done =
    ap (λ l. record { out = l; errs = done.errs; written = done.written; error = done.error })
      (sym (append_nil done.out))
    ∙ ap
        (λ l. record { out = done.out ++ []; errs = l; written = done.written; error = done.error })
        (sym (append_nil done.errs))
    ∙ ap
        (λ n. record {
          out = done.out ++ [];
          errs = done.errs ++ [];
          written = n;
          error = done.error;
        })
        (omega arith)
demux_lem ((std_in, payload) ∷ frames) done =
    demux_lem frames (to_stream false payload done)
    ∙ ap
        (λ l. record {
          out = l;
          errs = done.errs ++ bytes_of true frames;
          written = done.written + length payload + count_payloads frames;
          error = done.error;
        })
        (append_assoc done.out payload (bytes_of false frames))
    ∙ ap
        (λ n. record {
          out = done.out ++ (payload ++ bytes_of false frames);
          errs = done.errs ++ bytes_of true frames;
          written = n;
          error = done.error;
        })
        (omega arith)
demux_lem ((std_out, payload) ∷ frames) done =
    demux_lem frames (to_stream false payload done)
    ∙ ap
        (λ l. record {
          out = l;
          errs = done.errs ++ bytes_of true frames;
          written = done.written + length payload + count_payloads frames;
          error = done.error;
        })
        (append_assoc done.out payload (bytes_of false frames))
    ∙ ap
        (λ n. record {
          out = done.out ++ (payload ++ bytes_of false frames);
          errs = done.errs ++ bytes_of true frames;
          written = n;
          error = done.error;
        })
        (omega arith)
demux_lem ((std_err, payload) ∷ frames) done =
    demux_lem frames (to_stream true payload done)
    ∙ ap
        (λ l. record {
          out = done.out ++ bytes_of false frames;
          errs = l;
          written = done.written + length payload + count_payloads frames;
          error = done.error;
        })
        (append_assoc done.errs payload (bytes_of true frames))
    ∙ ap
        (λ n. record {
          out = done.out ++ bytes_of false frames;
          errs = done.errs ++ (payload ++ bytes_of true frames);
          written = n;
          error = done.error;
        })
        (omega arith)

-- The size of every frame is one of 32 bits.
abbrev pub AreShort : List (StdType × Bytes) → Type 0
AreShort [] = Unit
AreShort ((t, payload) ∷ frames) = (length payload < 4294967296) × AreShort frames
