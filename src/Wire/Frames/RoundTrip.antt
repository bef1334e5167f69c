-- ===== src/Wire/Frames/RoundTrip.antt =====
-- Connect frames of fusion_relay/wire.py, written one after another and split again.
use devin_fusion_via_codex.Common.{
  ℕ, zero, suc, ◌+◌, ◌/◌, ◌%◌, ◌^◌, ◌≤◌, ◌<◌, ◌≡◌, inl, inr, refl, sym, ◌∙◌, Bool, true, false, not,
  ◌&&◌, Bool-cases, List, [], ◌∷◌, ◌++◌, append_assoc, append-nil, All, length, length-append, drop,
  take-append, drop-append, arith, ltb-false, leb-false, if◌then◌else◌, Result, ok, err,
  ok-injective, ◌>>=◌,
}
use devin_fusion_via_codex.Wire.Error.{WireError, bytes_after_trailer}
use devin_fusion_via_codex.Wire.Frames.{
  Frame, frame, unframe, envelope, is_flags, is_trailer, ended, frames_loop, iter_frames,
  max_frame_payload, unpack_u32,
}

abbrev pub IsFrame : Frame → Type 0
IsFrame (flags, payload) = (is_flags flags ≡ true) × (length payload ≤ max_frame_payload)

-- Several frames, one after another.
unfoldable pub write_frames : List Frame → Result WireError (List ℕ)
write_frames [] = ok []
write_frames ((flags, payload) ∷ frames) = do
  first ← frame payload flags
  more ← write_frames frames
  ok (first ++ more)

abbrev envelopes : List Frame → List ℕ
envelopes [] = []
envelopes (f ∷ frames) = envelope f ++ envelopes frames

frame-envelope :
    (flags : ℕ) (payload : List ℕ)
    → IsFrame (flags, payload)
    → frame payload flags ≡ ok (envelope (flags, payload))
unfolding frame
frame-envelope flags payload h = ground arith

write_frames-envelopes :
    (frames : List Frame) → All IsFrame frames → write_frames frames ≡ ok (envelopes frames)
unfolding write_frames
write_frames-envelopes [] h = refl
write_frames-envelopes ((flags, payload) ∷ frames) h =
    rw (frame-envelope flags payload h.0, write_frames-envelopes frames h.1)

unpack-pack :
    (n : ℕ) → n < 2 ^ 32 → unpack_u32 (n / 16777216) (n / 65536 % 256) (n / 256 % 256) (n % 256) ≡ n
unpack-pack n h = omega arith

unframe-envelope : (f : Frame) (rest : List ℕ) → IsFrame f → unframe (envelope f ++ rest) ≡ ok f
unfolding unframe
unframe-envelope (flags, payload) rest h = rw (
  h.0,
  unpack-pack (length payload) (omega arith),
  ltb-false max_frame_payload (length payload) h.1,
  ltb-false (length (payload ++ rest)) (length payload) (omega (arith, length-append payload rest)),
  take-append payload rest,
)

drop-envelope : (f : Frame) (rest : List ℕ) → drop (5 + length f.1) (envelope f ++ rest) ≡ rest
drop-envelope (flags, payload) rest =
    let e : 5 + length payload ≡ suc (suc (suc (suc (suc (length payload))))) = omega arith in
    rw e (drop-append payload rest)

ended-snoc : (frames : List Frame) (f : Frame) → ended (frames ++ f ∷ []) ≡ is_trailer f
ended-snoc [] f = refl
ended-snoc (g ∷ []) f = refl
ended-snoc (g ∷ g' ∷ frames) f = ended-snoc (g' ∷ frames) f

-- No frame follows a trailer; the first argument says whether one stands just before.
abbrev pub in_order : Bool → List Frame → Bool
in_order after_trailer [] = true
in_order after_trailer (f ∷ frames) = not after_trailer && in_order (is_trailer f) frames

loop-envelopes :
    (fuel : ℕ) (frames before : List Frame)
    → All IsFrame frames
    → length before + length frames ≤ 1024
    → length (envelopes frames) ≤ fuel
    → frames_loop fuel (envelopes frames) before
      ≡ (if in_order (ended before) frames then ok (before ++ frames) else err bytes_after_trailer)
unfolding frames_loop
loop-envelopes fuel [] before h count enough = rw (append-nil before)
loop-envelopes zero (f ∷ frames) before h count enough = absurd (omega arith)
loop-envelopes (suc fuel) ((flags, payload) ∷ frames) before h count enough =
    elim (Bool-cases (ended before)) [
      | inl after ↦ rw (
        leb-false 1024 (length before) (omega arith),
        unframe-envelope (flags, payload) (envelopes frames) h.0,
        after,
      )
      | inr open_end ↦
          rw
            (
              leb-false 1024 (length before) (omega arith),
              unframe-envelope (flags, payload) (envelopes frames) h.0,
              open_end,
              drop-envelope (flags, payload) (envelopes frames),
            )
            (loop-envelopes fuel frames (before ++ (flags, payload) ∷ []) h.1
                (omega (arith, length-append before ((flags, payload) ∷ [])))
                (omega (arith, length-append payload (envelopes frames)))
              ∙ rw (
                ended-snoc before (flags, payload),
                append_assoc before ((flags, payload) ∷ []) frames,
              ))
    ]

-- At most 1024 frames that were written one after another are split into the same frames, unless a
-- frame follows a trailer: then they are refused.
pub iter_frames-write_frames :
    (frames : List Frame) (buf : List ℕ)
    → All IsFrame frames
    → length frames ≤ 1024
    → write_frames frames ≡ ok buf
    → iter_frames buf ≡ (if in_order false frames then ok frames else err bytes_after_trailer)
unfolding iter_frames
iter_frames-write_frames frames buf h count written =
    let e : envelopes frames ≡ buf =
      ok-injective (sym (write_frames-envelopes frames h) ∙ written) in
    rw (← e) (loop-envelopes (length (envelopes frames)) frames [] h (omega arith) (omega arith))
