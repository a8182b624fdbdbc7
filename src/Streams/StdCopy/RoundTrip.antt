-- ===== src/Streams/StdCopy/RoundTrip.antt =====
-- What StdWriters write to one connection, StdCopy takes apart, however the reads cut it.
use docker.Common.{
  ℕ, zero, suc, ◌+◌, ◌/◌, ◌%◌, ◌≤◌, ◌<◌, ◌≡◌, ◌∙◌, refl, ap, subst, Bool, true, false, none, some,
  List, [], ◌∷◌, ◌++◌, length, take, drop, length-append, arith,
}
use docker.Streams.StdCopy.{
  Bytes, prefix_len, StdType, std_in, std_out, std_err, fd, put_uint32, std_write, Written,
  all_written, Copied, filled, ended, fill, uint32, header, grown, to_stream, select_stream,
  copy_frames, count_bytes, nothing, std_copy,
}
use docker.Streams.StdCopy.Buffers.{
  concat, Begins, begins, take-append, drop-append, FillsTo, fill-FillsTo, Got, got, no_more,
}
use docker.Streams.StdCopy.Frames.{
  mux, is_err, demux, bytes_of, count_payloads, demux_lem, AreShort,
}

uint32-put_uint32 :
    (n : ℕ)
    → n < 4294967296
    → uint32 ((n / 16777216) % 256) ((n / 65536) % 256) ((n / 256) % 256) (n % 256) ≡ n
uint32-put_uint32 n h = omega arith

select-fd : (t : StdType) → select_stream (fd t) ≡ some (is_err t)
select-fd std_in = refl
select-fd std_out = refl
select-fd std_err = refl

grown-enough : (size buf_len : ℕ) → size + prefix_len ≤ grown size buf_len
grown-enough size buf_len = ground arith

grown-within : (size buf_len : ℕ) → buf_len ≤ grown size buf_len
grown-within size buf_len = ground arith

module _ (write : Bool → Bytes → Written)
    (accepts : (b : Bool) (f : Bytes) → write b f ≡ all_written) where
  copy_end :
      (fuel buf_len : ℕ) (buf : Bytes) (chunks : List Bytes) (done : Copied)
      → fill prefix_len buf_len buf chunks ≡ ended
      → copy_frames write false (suc fuel) buf_len buf chunks done ≡ done
  unfolding copy_frames
  copy_end fuel buf_len buf chunks done e = rw (e, copy_frames) refl

  copy_frame :
      (fuel buf_len : ℕ) (buf : Bytes) (chunks : List Bytes) (done : Copied) {buf' buf'' : Bytes}
      {chunks' chunks'' : List Bytes} {t size : ℕ} {b : Bool}
      → fill prefix_len buf_len buf chunks ≡ filled buf' chunks'
      → header buf' ≡ some (t, size)
      → select_stream t ≡ some b
      → fill (size + prefix_len) (grown size buf_len) buf' chunks' ≡ filled buf'' chunks''
      → copy_frames write false (suc fuel) buf_len buf chunks done
        ≡ copy_frames write false fuel
            (grown size buf_len)
            (drop size (drop prefix_len buf''))
            chunks''
            (to_stream b (take size (drop prefix_len buf'')) done)
  unfolding copy_frames
  copy_frame fuel buf_len buf chunks done e1 e2 e3 e4 =
      rw (e1, e2, e3, e4, accepts, copy_frames) refl

  record Consumed (fuel buf_len : ℕ) (rest payload : Bytes) (t : StdType) (done r : Copied)
      : Type 0 where
    buf : Bytes
    chunks : List Bytes
    equation :
        r
        ≡ copy_frames write false fuel
            (grown (length payload) buf_len)
            buf
            chunks
            (to_stream (is_err t) payload done)
    same : buf ++ concat chunks ≡ rest
    within : length buf ≤ grown (length payload) buf_len

  consume :
      (fuel buf_len : ℕ) (buf : Bytes) (chunks : List Bytes) (done : Copied) (t : StdType)
      (payload rest : Bytes)
      → length payload < 4294967296
      → prefix_len ≤ buf_len
      → length buf ≤ buf_len
      → buf ++ concat chunks ≡ std_write t payload ++ rest
      → Consumed fuel buf_len rest payload t done
          (copy_frames write false (suc fuel) buf_len buf chunks done)
  consume fuel buf_len buf chunks done t payload rest short a b e = record {
    buf = second.after;
    chunks = g2.chunks;
    equation =
        copy_frame fuel buf_len buf chunks done g1.equation
          (ap header first.buffer ∙ ap (λ n. some (fd t, n)) (uint32-put_uint32 size short))
          (select-fd t) g2.equation
        ∙ ap
            (λ l.
              copy_frames write false fuel (grown size buf_len) (drop size l) g2.chunks
                (to_stream (is_err t) (take size l) done))
            body
        ∙ ap
            (λ l.
              copy_frames write false fuel (grown size buf_len) l g2.chunks
                (to_stream (is_err t) (take size (payload ++ second.after)) done))
            (drop-append payload second.after)
        ∙ ap
            (λ l.
              copy_frames write false fuel (grown size buf_len) second.after g2.chunks
                (to_stream (is_err t) l done))
            (take-append payload second.after);
    same = second.rest;
    within = omega (
      arith,
      g2.within,
      ap length second.buffer,
      length-append (std_write t payload) second.after,
    );
  }
    where
      size : ℕ
      size = length payload

      total : Bytes
      total = std_write t payload ++ rest

      g1 : Got prefix_len buf_len total (fill prefix_len buf_len buf chunks)
      g1 =
          got prefix_len buf_len total (fill prefix_len buf_len buf chunks)
            (subst (λ l. FillsTo prefix_len buf_len l (fill prefix_len buf_len buf chunks)) e
              (fill-FillsTo prefix_len buf_len buf chunks a b))
            (omega arith)

      first :
          Begins (fd t ∷ 0 ∷ 0 ∷ 0 ∷ put_uint32 size []) (payload ++ rest) g1.buf (concat g1.chunks)
      first =
          begins (fd t ∷ 0 ∷ 0 ∷ 0 ∷ put_uint32 size []) (payload ++ rest) g1.buf (concat g1.chunks)
            g1.same g1.enough

      g2 :
          Got
            (size + prefix_len)
            (grown size buf_len)
            total
            (fill (size + prefix_len) (grown size buf_len) g1.buf g1.chunks)
      g2 =
          got (size + prefix_len) (grown size buf_len) total
            (fill (size + prefix_len) (grown size buf_len) g1.buf g1.chunks)
            (subst
              (λ l.
                FillsTo (size + prefix_len) (grown size buf_len) l
                  (fill (size + prefix_len) (grown size buf_len) g1.buf g1.chunks))
              g1.same
              (fill-FillsTo (size + prefix_len) (grown size buf_len) g1.buf g1.chunks
                (grown-enough size buf_len) (omega (arith, g1.within, grown-within size buf_len))))
            (omega (arith, length-append payload rest))

      second : Begins (std_write t payload) rest g2.buf (concat g2.chunks)
      second =
          begins (std_write t payload) rest g2.buf (concat g2.chunks) g2.same
            (omega (arith, g2.enough))

      body : drop prefix_len g2.buf ≡ payload ++ second.after
      body = ap (λ l. drop prefix_len l) second.buffer

  copy_frames-mux :
      (frames : List (StdType × Bytes)) (fuel buf_len : ℕ) (buf : Bytes) (chunks : List Bytes)
      (done : Copied)
      → AreShort frames
      → length frames < fuel
      → prefix_len ≤ buf_len
      → length buf ≤ buf_len
      → buf ++ concat chunks ≡ mux frames
      → copy_frames write false fuel buf_len buf chunks done ≡ demux frames done
  copy_frames-mux frames zero buf_len buf chunks done s f a b e = absurd (omega arith)
  copy_frames-mux [] (suc fuel) buf_len buf chunks done s f a b e =
      copy_end fuel buf_len buf chunks done (
        no_more prefix_len buf_len [] _
          (subst (λ total. FillsTo prefix_len buf_len total (fill prefix_len buf_len buf chunks)) e
            (fill-FillsTo prefix_len buf_len buf chunks a b))
          (omega arith))
  copy_frames-mux ((t, payload) ∷ frames) (suc fuel) buf_len buf chunks done s f a b e =
      let c : Consumed fuel buf_len (mux frames) payload t done
          (copy_frames write false (suc fuel) buf_len buf chunks done) =
        consume fuel buf_len buf chunks done t payload (mux frames) s.0 a b e in
      c.equation
      ∙ copy_frames-mux frames fuel (grown (length payload) buf_len) c.buf c.chunks
          (to_stream (is_err t) payload done) s.1 (omega arith)
          (omega (arith, grown-within (length payload) buf_len)) c.within c.same

  frames_le : (frames : List (StdType × Bytes)) → length frames ≤ length (mux frames)
  frames_le [] = omega arith
  frames_le ((t, payload) ∷ frames) =
      omega (arith, length-append payload (mux frames), frames_le frames)

  count-concat : (chunks : List Bytes) → length (concat chunks) ≡ count_bytes chunks
  count-concat [] = refl
  count-concat (c ∷ chunks) = omega (arith, length-append c (concat chunks), count-concat chunks)

  -- The bytes of any writes of StdWriters to one connection, in any order and each shorter than 2 ^ 32
  -- bytes, are copied without an error, if the two destinations accept all that is written to
  -- them: one gets the bytes that were written to standard error, the other those of the other
  -- streams, each in order, however the reads of the connection cut them, and all are counted.
  pub std_copy-mux :
      (frames : List (StdType × Bytes)) (chunks : List Bytes)
      → AreShort frames
      → concat chunks ≡ mux frames
      → std_copy write false chunks ≡ record {
        out = bytes_of false frames;
        errs = bytes_of true frames;
        written = count_payloads frames;
        error = none;
      }
  unfolding std_copy
  std_copy-mux frames chunks s e =
      copy_frames-mux frames (suc (count_bytes chunks)) 32777 [] chunks (nothing) s
        (omega (arith, frames_le frames, ap length e, count-concat chunks)) (omega arith)
        (omega arith) e
      ∙ demux_lem frames nothing
      ∙ ap
          (λ n. record {
            out = bytes_of false frames;
            errs = bytes_of true frames;
            written = n;
            error = none;
          })
          (omega arith)
