-- ===== src/Wire/Observer/Chunks.antt =====
-- How a stream is cut into chunks makes no difference to `ConnectObserver` of
-- fusion_relay/native_stream.py.
use devin_fusion_via_codex.Common.{
  ℕ, zero, suc, ◌≤◌, ◌<◌, ◌≡◌, ◌≢◌, inl, inr, refl, ap, ◌∙◌, Bool, true, false, Bool-cases, List,
  [], ◌∷◌, ◌++◌, append_assoc, append-nil, length, length-append, length-drop, take, drop,
  take-append_le, drop-append_le, arith, ltb, ltb-false, ◌==◌, if_true, if_false, Result, ok, err,
  All,
}
use devin_fusion_via_codex.Wire.Frames.{unpack_u32, is_flags}
use devin_fusion_via_codex.Wire.Observer.{
  Observer, StreamFailure, bytes_after_trailer, Round, wait, fail, closed, next, close_stream,
  take_frame, read_frame, feed_loop, feed,
}

-- What a failure leaves in the buffer is never read again, so an outcome leaves it out.
abbrev pub outcome :
    Result StreamFailure (Unit {0}) × Observer → Result StreamFailure (Unit {0}) × Observer
outcome (ok u, o) = (ok u, o)
outcome (err e, o) = (err e, record o { buf = [] })

abbrev pub Outcome : Type 0
Outcome = Result StreamFailure (Unit {0}) × Observer

-- What is done next, unless the last step raised.
abbrev pub proceed : (Observer → Outcome) → Outcome → Outcome
proceed more (ok u, o) = more o
proceed more (err e, o) = (err e, o)

module _ (is_object : List ℕ → Bool) where
  -- Chunk after chunk, up to the first that raises.
  pub feed_all : List (List ℕ) → Observer → Outcome
  feed_all [] o = (ok tt, o)
  feed_all (c ∷ chunks) o = proceed (feed_all chunks) (feed is_object c o)

abbrev extend : Observer → List ℕ → Observer
extend o d = record o { buf = o.buf ++ d }

abbrev Alike : Observer → Observer → Type 0
Alike o o' = (o.limit ≡ o'.limit) × (o.trailer ≡ o'.trailer) × (o.seen ≡ o'.seen)

-- How a round goes on with more bytes behind it.
abbrev Extends : Observer → List ℕ → Round → Round → Type 0
Extends o d wait r = Unit
Extends o d (fail e o') r = (p : Observer) × (r ≡ fail e p) × Alike o' p
Extends o d (closed o') r =
    (p : Observer) × (r ≡ fail bytes_after_trailer p) × Alike o' p × (o'.trailer ≡ true)
Extends o d (next o') r =
    (r ≡ next (extend o' d)) × (o'.trailer ≡ o.trailer) × (length o'.buf < length o.buf)

module _ (is_object : List ℕ → Bool) (b : ℕ) (ds : List ℕ) where
  close_stream-Extends :
      (o q : Observer) (payload rest : List ℕ)
      → Alike o q
      → Extends o
          (b ∷ ds)
          (close_stream is_object o payload rest)
          (close_stream is_object q payload (rest ++ b ∷ ds))
  unfolding close_stream
  close_stream-Extends o q payload [] same = elim (Bool-cases (is_object payload)) [
    | inl good ↦ rw good (_, refl, (same.0, refl, same.2), refl)
    | inr bad ↦ rw bad (_, refl, same)
  ]
  close_stream-Extends o q payload (x ∷ rest) same = elim (Bool-cases (is_object payload)) [
    | inl good ↦ rw good (_, refl, (same.0, refl, same.2))
    | inr bad ↦ rw bad (_, refl, same)
  ]

  take_frame-Extends :
      (o : Observer) (flags n : ℕ) (header body : List ℕ)
      → n ≤ length body
      → length body < length o.buf
      → Extends o
          (b ∷ ds)
          (take_frame is_object o flags n header body)
          (take_frame is_object (extend o (b ∷ ds)) flags n header (body ++ b ∷ ds))
  unfolding take_frame
  take_frame-Extends o flags n header body fits less = elim (Bool-cases (flags == 2)) [
    | inl is_end ↦
        rw (is_end, take-append_le n body (b ∷ ds) fits, drop-append_le n body (b ∷ ds) fits)
          (close_stream-Extends o (extend o (b ∷ ds)) (take n body) (drop n body)
            (refl, refl, refl))
    | inr more ↦
        rw (more, take-append_le n body (b ∷ ds) fits, drop-append_le n body (b ∷ ds) fits)
          (refl, refl, omega (arith, length-drop n body))
  ]

  read_frame-Extends :
      (o : Observer) (buf : List ℕ)
      → length buf ≤ length o.buf
      → Extends o
          (b ∷ ds)
          (read_frame is_object o buf)
          (read_frame is_object (extend o (b ∷ ds)) (buf ++ b ∷ ds))
  unfolding read_frame
  read_frame-Extends o (flags ∷ b1 ∷ b2 ∷ b3 ∷ b4 ∷ body) less =
      elim (Bool-cases (is_flags flags)) [
        | inr bad ↦ rw bad (_, refl, (refl, refl, refl))
        | inl good ↦ elim (Bool-cases (ltb o.limit (unpack_u32 b1 b2 b3 b4))) [
          | inl large ↦ rw (good, large) (_, refl, (refl, refl, refl))
          | inr small ↦ elim (Bool-cases (ltb (length body) (unpack_u32 b1 b2 b3 b4))) [
            | inl short ↦ rw (good, small, short) tt
            | inr whole ↦
                rw
                  (
                    good,
                    small,
                    whole,
                    ltb-false (length (body ++ b ∷ ds)) (unpack_u32 b1 b2 b3 b4)
                        (ground (arith, length-append body (b ∷ ds))),
                  )
                  (take_frame-Extends o flags (unpack_u32 b1 b2 b3 b4)
                    (flags ∷ b1 ∷ b2 ∷ b3 ∷ b4 ∷ []) body (ground arith) (omega arith))
          ]
        ]
      ]
  read_frame-Extends o [] less = tt
  read_frame-Extends o (x1 ∷ []) less = tt
  read_frame-Extends o (x1 ∷ x2 ∷ []) less = tt
  read_frame-Extends o (x1 ∷ x2 ∷ x3 ∷ []) less = tt
  read_frame-Extends o (x1 ∷ x2 ∷ x3 ∷ x4 ∷ []) less = tt

  read_frame-short :
      (o : Observer) (buf : List ℕ) → length buf < 5 → read_frame is_object o buf ≡ wait
  unfolding read_frame
  read_frame-short o [] h = refl
  read_frame-short o (x1 ∷ []) h = refl
  read_frame-short o (x1 ∷ x2 ∷ []) h = refl
  read_frame-short o (x1 ∷ x2 ∷ x3 ∷ []) h = refl
  read_frame-short o (x1 ∷ x2 ∷ x3 ∷ x4 ∷ []) h = refl
  read_frame-short o (x1 ∷ x2 ∷ x3 ∷ x4 ∷ x5 ∷ buf) h = absurd (omega arith)

  -- Any fuel from the length of the buffer on gives the same result.
  loop_fuel :
      (f g : ℕ) (o : Observer)
      → length o.buf ≤ f
      → length o.buf ≤ g
      → feed_loop is_object f o ≡ feed_loop is_object g o
  unfolding feed_loop
  loop_fuel zero zero o hf hg = refl
  loop_fuel zero (suc g) o hf hg = rw (read_frame-short o o.buf (omega arith), feed_loop)
  loop_fuel (suc f) zero o hf hg = rw (read_frame-short o o.buf (omega arith), feed_loop)
  loop_fuel (suc f) (suc g) o hf hg = go (read_frame is_object o o.buf) refl (loop_fuel f g)
    where
      go :
          (r : Round)
          → read_frame is_object o o.buf ≡ r
          → ((o' : Observer)
              → length o'.buf ≤ f
              → length o'.buf ≤ g
              → feed_loop is_object f o' ≡ feed_loop is_object g o')
          → feed_loop is_object (suc f) o ≡ feed_loop is_object (suc g) o
      go wait e ih = rw (e, feed_loop)
      go (fail x o') e ih = rw (e, feed_loop)
      go (closed o') e ih = rw (e, feed_loop)
      go (next o') e ih =
          let ext : Extends o (b ∷ ds) (next o')
              (read_frame is_object (extend o (b ∷ ds)) (o.buf ++ b ∷ ds)) =
            rw e at (read_frame-Extends o o.buf (omega arith)) in
          rw (e, feed_loop) (ih o' (omega (arith, ext.2)) (omega (arith, ext.2)))

  abbrev continue : Outcome → Outcome
  continue = proceed (feed is_object (b ∷ ds))

  Alike-outcome :
      (e : StreamFailure) (o p : Observer) → Alike o p → outcome (err e, o) ≡ outcome (err e, p)
  Alike-outcome e o p same = ground arith

  feed_open :
      (g : ℕ) (o : Observer)
      → o.trailer ≡ false
      → length (o.buf ++ b ∷ ds) ≤ g
      → feed is_object (b ∷ ds) o ≡ feed_loop is_object g (extend o (b ∷ ds))
  unfolding feed
  feed_open g o open_end enough =
      if_false _ _ open_end
      ∙ loop_fuel (length (o.buf ++ b ∷ ds)) g (extend o (b ∷ ds)) (omega arith) enough

  feed_shut :
      (o : Observer) → o.trailer ≡ true → feed is_object (b ∷ ds) o ≡ (err bytes_after_trailer, o)
  unfolding feed
  feed_shut o shut = if_true _ _ shut

  loop_split :
      (f g : ℕ) (o : Observer)
      → o.trailer ≡ false
      → length o.buf ≤ f
      → length (o.buf ++ b ∷ ds) ≤ g
      → outcome (continue (feed_loop is_object f o))
        ≡ outcome (feed_loop is_object g (extend o (b ∷ ds)))
  unfolding feed_loop
  loop_split zero g o open_end hf hg = ap outcome (feed_open g o open_end hg)
  loop_split (suc f) zero o open_end hf hg = absurd (omega (arith, length-append o.buf (b ∷ ds)))
  loop_split (suc f) (suc g) o open_end hf hg =
      go (read_frame is_object o o.buf) refl (loop_split f g)
    where
      go :
          (r : Round)
          → read_frame is_object o o.buf ≡ r
          → ((o' : Observer)
              → o'.trailer ≡ false
              → length o'.buf ≤ f
              → length (o'.buf ++ b ∷ ds) ≤ g
              → outcome (continue (feed_loop is_object f o'))
                ≡ outcome (feed_loop is_object g (extend o' (b ∷ ds))))
          → outcome (continue (feed_loop is_object (suc f) o))
            ≡ outcome (feed_loop is_object (suc g) (extend o (b ∷ ds)))
      go wait e ih = rw (e, feed_loop) (ap outcome (feed_open (suc g) o open_end hg))
      go (fail x o') e ih =
          let (p, ext, same) : Extends o (b ∷ ds) (fail x o')
              (read_frame is_object (extend o (b ∷ ds)) (o.buf ++ b ∷ ds)) =
            rw e at (read_frame-Extends o o.buf (omega arith)) in
          rw (e, ext, feed_loop) (Alike-outcome x o' p same)
      go (closed o') e ih =
          let (p, ext, same, shut) : Extends o (b ∷ ds) (closed o')
              (read_frame is_object (extend o (b ∷ ds)) (o.buf ++ b ∷ ds)) =
            rw e at (read_frame-Extends o o.buf (omega arith)) in
          rw (e, ext, feed_loop)
            (ap outcome (feed_shut o' shut) ∙ Alike-outcome bytes_after_trailer o' p same)
      go (next o') e ih =
          let (ext, same, less) : Extends o (b ∷ ds) (next o')
              (read_frame is_object (extend o (b ∷ ds)) (o.buf ++ b ∷ ds)) =
            rw e at (read_frame-Extends o o.buf (omega arith)) in
          rw (e, ext, feed_loop)
            (ih o' (same ∙ open_end) (omega arith)
              (omega (arith, length-append o'.buf (b ∷ ds), length-append o.buf (b ∷ ds))))

  -- One chunk after another, or both in one.
  feed_split :
      (c : List ℕ) (o : Observer)
      → outcome (continue (feed is_object c o)) ≡ outcome (feed is_object (c ++ b ∷ ds) o)
  unfolding feed
  feed_split c o = elim (Bool-cases o.trailer) [
    | inl shut ↦ rw (if_true _ _ shut, if_true _ _ shut)
    | inr open_end ↦
        rw (if_false _ _ open_end, if_false _ _ open_end, ← append_assoc o.buf c (b ∷ ds))
          (loop_split (length (o.buf ++ c)) (length ((o.buf ++ c) ++ b ∷ ds)) (extend o c) open_end
            (omega arith) (omega arith))
  ]

abbrev pub joined : List (List ℕ) → List ℕ
joined [] = []
joined (c ∷ chunks) = c ++ joined chunks

abbrev pub NonEmpty : List ℕ → Type 0
NonEmpty c = c ≢ []

proceed-outcome :
    (k m : Observer → Outcome) (p : Outcome)
    → ((o : Observer) → outcome (k o) ≡ outcome (m o))
    → outcome (proceed k p) ≡ outcome (proceed m p)
proceed-outcome k m (ok u, o) h = h o
proceed-outcome k m (err e, o) h = refl

proceed-stop : (p : Outcome) → proceed (λ o. (ok tt, o)) p ≡ p
proceed-stop (ok tt, o) = refl
proceed-stop (err e, o) = refl

module _ (is_object : List ℕ → Bool) where
  -- A stream that arrives in chunks, each but the first not empty, has the same outcome as one that
  -- arrives whole: the same frames handed on in the same order, and the same failure, or the same
  -- state to go on from.
  pub feed_all-joined :
      (c : List ℕ) (chunks : List (List ℕ)) (o : Observer)
      → All NonEmpty chunks
      → outcome (feed_all is_object (c ∷ chunks) o)
        ≡ outcome (feed is_object (c ++ joined chunks) o)
  unfolding feed_all
  feed_all-joined c [] o h = rw (append-nil c, proceed-stop (feed is_object c o))
  feed_all-joined c ([] ∷ chunks) o h = absurd (h.0 refl)
  feed_all-joined c ((b ∷ ds) ∷ chunks) o h =
      proceed-outcome (feed_all is_object ((b ∷ ds) ∷ chunks))
        (feed is_object (b ∷ (ds ++ joined chunks))) (feed is_object c o)
        (λ o'. feed_all-joined (b ∷ ds) chunks o' h.1)
      ∙ feed_split is_object b (ds ++ joined chunks) c o
