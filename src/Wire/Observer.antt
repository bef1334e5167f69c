-- ===== src/Wire/Observer.antt =====
-- fusion_relay/native_stream.py: `ConnectObserver`, the incremental parser of Connect frames. The
-- frames that `on_frame` was given are recorded in order. Whether `json.loads` makes a JSON object
-- of a trailer's payload is the parameter `is_object`: both of its failures raise the same error.
pub mod Chunks
use devin_fusion_via_codex.Common.{
  ℕ, zero, suc, ◌+◌, Bool, true, false, not, List, [], ◌∷◌, ◌++◌, length, take, drop, ltb, ◌==◌,
  if◌then◌else◌, Result, ok, err,
}
use devin_fusion_via_codex.Wire.Frames.{unpack_u32, is_flags}

-- `StreamFailure`, by its messages.
pub data StreamFailure : Type 0 where
  bytes_after_trailer invalid_flags payload_too_large invalid_trailer incomplete_stream :
      StreamFailure

pub record Observer : Type 0 where
  pub limit : ℕ
  pub buf : List ℕ
  pub trailer : Bool
  pub seen : List (List ℕ)

-- One round of the loop in `feed`: it waits for more bytes, raises, ends at the trailer, or goes on.
pub data Round : Type 0 where
  wait : Round
  fail : StreamFailure → Observer → Round
  closed : Observer → Round
  next : Observer → Round

module _ (is_object : List ℕ → Bool) where
  -- A trailer: the frame is cut off, its payload read, and nothing may follow.
  close_stream : Observer → List ℕ → List ℕ → Round
  close_stream o payload rest =
      if not (is_object payload)
      then fail invalid_trailer (record o { buf = rest })
      else elim rest [
        | [] ↦ closed (record o { buf = []; trailer = true })
        | b ∷ more ↦ fail bytes_after_trailer (record o { buf = b ∷ more; trailer = true })
      ]

  -- A whole frame of `n` bytes of payload stands at the start of the buffer.
  take_frame : Observer → ℕ → ℕ → List ℕ → List ℕ → Round
  unfolding close_stream
  take_frame o flags n header body =
      if flags == 2
      then close_stream o (take n body) (drop n body)
      else next (record o { buf = drop n body; seen = o.seen ++ (header ++ take n body) ∷ [] })

  read_frame : Observer → List ℕ → Round
  unfolding take_frame
  read_frame o (flags ∷ a ∷ b ∷ c ∷ d ∷ body) =
      if not (is_flags flags)
      then fail invalid_flags o
      else if ltb o.limit (unpack_u32 a b c d)
      then fail payload_too_large o
      else if ltb (length body) (unpack_u32 a b c d)
      then wait
      else take_frame o flags (unpack_u32 a b c d) (flags ∷ a ∷ b ∷ c ∷ d ∷ []) body
  read_frame o _ = wait

  -- `while True`. A round that goes on takes five bytes or more, so the length of the buffer is
  -- fuel enough; with no fuel left the buffer is empty, and the loop waits.
  unfoldable pub feed_loop : ℕ → Observer → Result StreamFailure (Unit {0}) × Observer
  unfolding read_frame
  feed_loop zero o = (ok tt, o)
  feed_loop (suc fuel) o = elim (read_frame o o.buf) [
    | wait ↦ (ok tt, o)
    | fail e o' ↦ (err e, o')
    | closed o' ↦ (ok tt, o')
    | next o' ↦ feed_loop fuel o'
  ]

  unfoldable pub feed : List ℕ → Observer → Result StreamFailure (Unit {0}) × Observer
  unfolding feed_loop
  feed chunk o =
      if o.trailer
      then (err bytes_after_trailer, o)
      else feed_loop (length (o.buf ++ chunk)) (record o { buf = o.buf ++ chunk })

unfoldable pub finish : Observer → Result StreamFailure (Unit {0})
finish o = elim o.buf [
  | [] ↦ if o.trailer then ok tt else err incomplete_stream
  | b ∷ more ↦ err incomplete_stream
]
