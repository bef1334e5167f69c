-- ===== src/Wire/Frames.antt =====
-- fusion_relay/wire.py: `frame`, `unframe`, `iter_frames`, `end_stream`.
pub mod RoundTrip
use devin_fusion_via_codex.Common.{
  ℕ, zero, suc, ◌+◌, ◌*◌, ◌/◌, ◌%◌, ◌^◌, Bool, true, false, not, ◌&&◌, ◌||◌, Option, none, some,
  List, [], ◌∷◌, ◌++◌, length, take, drop, ltb, leb, ◌==◌, if◌then◌else◌, Result, ok, err, raise_if,
  ◌>>=◌, ◌>>◌,
}
use devin_fusion_via_codex.Wire.Error.{
  WireError, flags_overflow, length_overflow, truncated_header, invalid_flags, payload_too_large,
  truncated_payload, too_many_frames, bytes_after_trailer, fuel_exhausted,
}

abbrev pub max_frame_payload : ℕ
max_frame_payload = 67108864

abbrev pub max_frames : ℕ
max_frames = 1024

-- `struct.pack(">I", n)` for n < 2 ^ 32
abbrev pub pack_u32 : ℕ → List ℕ
pack_u32 n = n / 16777216 ∷ n / 65536 % 256 ∷ n / 256 % 256 ∷ n % 256 ∷ []

-- `struct.unpack(">I", …)` and `int.from_bytes(…, "big")` of four bytes
abbrev pub unpack_u32 : ℕ → ℕ → ℕ → ℕ → ℕ
unpack_u32 a b c d = a * 16777216 + b * 65536 + c * 256 + d

abbrev pub Frame : Type 0
Frame = ℕ × List ℕ

abbrev pub envelope : Frame → List ℕ
envelope (flags, payload) = (flags ∷ pack_u32 (length payload)) ++ payload

unfoldable pub frame : List ℕ → ℕ → Result WireError (List ℕ)
frame payload flags = do
  raise_if (ltb 255 flags) flags_overflow
  raise_if (leb (2 ^ 32) (length payload)) length_overflow
  ok (envelope (flags, payload))

-- `b"{}"`
unfoldable pub end_stream : Result WireError (List ℕ)
unfolding frame
end_stream = frame (123 ∷ 125 ∷ []) 2

abbrev pub is_flags : ℕ → Bool
is_flags flags = (flags == 0) || ((flags == 1) || (flags == 2))

unfoldable pub unframe : List ℕ → Result WireError Frame
unframe (flags ∷ a ∷ b ∷ c ∷ d ∷ rest) = do
  raise_if (not (is_flags flags)) invalid_flags
  let n = unpack_u32 a b c d
  raise_if (ltb max_frame_payload n) payload_too_large
  raise_if (ltb (length rest) n) truncated_payload
  ok (flags, take n rest)
unframe _ = err truncated_header

-- `flags & FLAG_TRAILER`
abbrev pub is_trailer : Frame → Bool
is_trailer (flags, payload) = flags / 2 % 2 == 1

-- `frames and frames[-1][0] & FLAG_TRAILER`
abbrev pub ended : List Frame → Bool
ended [] = false
ended (f ∷ []) = is_trailer f
ended (f ∷ g ∷ frames) = ended (g ∷ frames)

-- `while pos < len(view)`; the list is `view[pos:]`. Each round consumes five bytes or more.
unfoldable pub frames_loop : ℕ → List ℕ → List Frame → Result WireError (List Frame)
frames_loop fuel [] frames = ok frames
frames_loop zero (b ∷ buf) frames = err fuel_exhausted
frames_loop (suc fuel) (b ∷ buf) frames = do
  raise_if (leb max_frames (length frames)) too_many_frames
  f ← unframe (b ∷ buf)
  raise_if (ended frames) bytes_after_trailer
  frames_loop fuel (drop (5 + length f.1) (b ∷ buf)) (frames ++ f ∷ [])

unfoldable pub iter_frames : List ℕ → Result WireError (List Frame)
unfolding frames_loop
iter_frames buf = frames_loop (length buf) buf []
