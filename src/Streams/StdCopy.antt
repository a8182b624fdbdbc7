-- ===== src/Streams/StdCopy.antt =====
-- The output streams of a container, multiplexed on one connection and taken apart again:
-- utils/stdcopy.go. A reader is the list of what its reads bring, and then the end or an error.
mod Buffers
pub mod Frames
pub mod RoundTrip
mod Tests
use docker.Common.{
  ℕ, zero, suc, ◌+◌, ◌-◌, ◌*◌, ◌/◌, ◌%◌, ◌^◌, Bool, true, false, Option, none, some, List, [], ◌∷◌,
  ◌++◌, length, take, drop, leb, ltb, ◌==◌, if◌then◌else◌, nat_eq,
}

abbrev pub Bytes : Type 0
Bytes = List ℕ

-- `StdWriterPrefixLen`
abbrev pub prefix_len : ℕ
prefix_len = 8

pub data StdType : Type 0 where
  std_in std_out std_err : StdType

abbrev pub fd : StdType → ℕ
fd std_in = 0
fd std_out = 1
fd std_err = 2

-- binary.BigEndian.PutUint32(b, uint32(n)), in front of `rest`
abbrev pub put_uint32 : ℕ → Bytes → Bytes
put_uint32 n rest = (n / 16777216) % 256 ∷ (n / 65536) % 256 ∷ (n / 256) % 256 ∷ n % 256 ∷ rest

-- `StdWriter.Write`: what the underlying writer is given.
abbrev pub std_write : StdType → Bytes → Bytes
std_write t buf = fd t ∷ 0 ∷ 0 ∷ 0 ∷ put_uint32 (length buf) buf

pub data CopyError : Type 0 where
  read_error invalid_std_header write_error short_write out_of_fuel : CopyError

-- What a destination says to a write.
pub data Written : Type 0 where
  all_written some_written write_failed : Written

pub record Copied : Type 0 where
  pub out : Bytes
  pub errs : Bytes
  pub written : ℕ
  pub error : Option CopyError

pub data Filled : Type 0 where
  filled : Bytes → List Bytes → Filled
  ended : Filled

-- Reads until the buffer holds `need` bytes. A read brings no more than there is room for.
unfoldable pub fill : ℕ → ℕ → Bytes → List Bytes → Filled
fill need buf_len buf [] = if leb need (length buf) then filled buf [] else ended
fill need buf_len buf (c ∷ chunks) =
    let rest = fill need buf_len (buf ++ c) chunks in
    let room : ℕ = buf_len - length buf in
    if leb need (length buf)
    then filled buf (c ∷ chunks)
    else if leb (length c) room
    then rest
    else filled (buf ++ take room c) (drop room c ∷ chunks)

abbrev pub uint32 : ℕ → ℕ → ℕ → ℕ → ℕ
uint32 a b c d = a * 16777216 + b * 65536 + c * 256 + d

-- The first byte and the size of a buffer that begins with a header.
abbrev pub header : Bytes → Option (ℕ × ℕ)
header (t ∷ x ∷ y ∷ z ∷ a ∷ b ∷ c ∷ d ∷ buf) = some (t, uint32 a b c d)
header buf = none

-- The buffer grows to hold the frame.
abbrev pub grown : ℕ → ℕ → ℕ
grown frame_size buf_len =
    if ltb buf_len (frame_size + prefix_len)
    then buf_len + (frame_size + prefix_len - buf_len + 1)
    else buf_len

abbrev pub failed_copy : CopyError → Copied → Copied
failed_copy e done = record done { written = 0; error = some e }

abbrev pub to_stream : Bool → Bytes → Copied → Copied
to_stream is_err frame done =
    if is_err
    then record done { errs = done.errs ++ frame; written = done.written + length frame }
    else record done { out = done.out ++ frame; written = done.written + length frame }

-- Where the first byte says that a frame goes: `true` is the destination of errors.
abbrev pub select_stream : ℕ → Option Bool
select_stream zero = some false
select_stream (suc zero) = some false
select_stream (suc (suc zero)) = some true
select_stream (suc (suc (suc n))) = none

abbrev pub count_bytes : List Bytes → ℕ
count_bytes [] = 0
count_bytes (c ∷ chunks) = length c + count_bytes chunks

abbrev pub nothing : Copied
nothing = record { out = []; errs = []; written = 0; error = none }

module _ (write : Bool → Bytes → Written) (read_fails : Bool) where
  -- The end of the input ends the copy without an error, also within a frame.
  abbrev pub at_end : Copied → Copied
  at_end done = if read_fails then failed_copy read_error done else done

  -- `StdCopy`, one frame after the other: a loop on fuel. What a destination keeps of a write that
  -- fails is its own.
  unfoldable pub copy_frames : ℕ → ℕ → Bytes → List Bytes → Copied → Copied
  copy_frames zero buf_len buf chunks done = failed_copy out_of_fuel done
  copy_frames (suc fuel) buf_len buf chunks done = elim (fill prefix_len buf_len buf chunks) [
    | ended ↦ at_end done
    | filled buf' chunks' ↦ elim (header buf') [
      | none ↦ at_end done
      | some (t, frame_size) ↦ elim (select_stream t) [
        | none ↦ failed_copy invalid_std_header done
        | some is_err ↦
            elim (fill (frame_size + prefix_len) (grown frame_size buf_len) buf' chunks') [
              | ended ↦ at_end done
              | filled buf'' chunks'' ↦
                  let frame : Bytes = take frame_size (drop prefix_len buf'') in
                  elim (write is_err frame) [
                    | write_failed ↦ failed_copy write_error done
                    | some_written ↦ failed_copy short_write done
                    | all_written ↦
                        copy_frames fuel (grown frame_size buf_len)
                          (drop frame_size (drop prefix_len buf'')) chunks''
                          (to_stream is_err frame done)
                  ]
            ]
      ]
    ]
  ]

  -- Each frame takes at least a byte of the input.
  unfoldable pub std_copy : List Bytes → Copied
  unfolding copy_frames
  std_copy chunks = copy_frames (suc (count_bytes chunks)) 32777 [] chunks nothing
