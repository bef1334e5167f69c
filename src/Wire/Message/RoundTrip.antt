-- ===== src/Wire/Message/RoundTrip.antt =====
-- Whole messages of fusion_relay/wire.py, written and read back.
use devin_fusion_via_codex.Common.{
  ℕ, ◌≡◌, ◌≢◌, refl, sym, ap, ◌∙◌, List, [], ◌∷◌, ◌++◌, append_assoc, append-nil, All, arith, ok,
  ==_refl,
}
use devin_fusion_via_codex.Wire.Message.{
  encode_value, encode_values, encode_typed, TypedValue, Dict, append_value, decode_loop,
  decode_typed,
}
use devin_fusion_via_codex.Wire.Message.Field.{Fits, IsFieldNumber, read_field-encode_value}
use devin_fusion_via_codex.Wire.Message.Loop.{run, run_step}

-- The key of no entry.
abbrev pub Fresh {ℓ} : {A : Type ℓ} → ℕ → Dict A → Type 0
Fresh number [] = Unit
Fresh number ((k, vs) ∷ msg) = (k ≢ number) × Fresh number msg

-- A typed message as `decode_typed` builds it: each field number is valid and stands once, with
-- one value or more, and each value fits its wire type.
abbrev pub IsMessage : Dict TypedValue → Type 0
IsMessage [] = Unit
IsMessage ((number, vs) ∷ msg) =
    IsFieldNumber number × (vs ≢ []) × All Fits vs × Fresh number msg × IsMessage msg

-- What appending the values of one field makes of a message.
abbrev appends : ℕ → List TypedValue → Dict TypedValue → Dict TypedValue
appends number [] out = out
appends number (v ∷ vs) out = appends number vs (append_value number v out)

run-encode_values :
    (number : ℕ) (vs : List TypedValue) (rest : List ℕ) (out : Dict TypedValue)
    → IsFieldNumber number
    → All Fits vs
    → run (encode_values number vs ++ rest) out ≡ run rest (appends number vs out)
unfolding encode_values
run-encode_values number [] rest out h fits = refl
run-encode_values number (v ∷ vs) rest out h (fit, fits) =
    rw (append_assoc (encode_value number v) (encode_values number vs) rest) (
      run_step (encode_value number v ++ (encode_values number vs ++ rest)) number v
        (encode_values number vs ++ rest) out
        (read_field-encode_value number v (encode_values number vs ++ rest) h fit)
      ∙ run-encode_values number vs rest (append_value number v out) h fits)

append_value-new :
    (number : ℕ) (v : TypedValue) (out : Dict TypedValue)
    → Fresh number out
    → append_value number v out ≡ out ++ (number, v ∷ []) ∷ []
unfolding append_value
append_value-new number v [] h = refl
append_value-new number v ((k, vs) ∷ out) h = ground (arith, append_value-new number v out)

append_value-last :
    (number : ℕ) (v : TypedValue) (ws : List TypedValue) (out : Dict TypedValue)
    → Fresh number out
    → append_value number v (out ++ (number, ws) ∷ []) ≡ out ++ (number, ws ++ v ∷ []) ∷ []
unfolding append_value
append_value-last number v ws [] h = rw (==_refl number)
append_value-last number v ws ((k, vs) ∷ out) h = ground (arith, append_value-last number v ws out)

appends-last :
    (number : ℕ) (vs ws : List TypedValue) (out : Dict TypedValue)
    → Fresh number out
    → appends number vs (out ++ (number, ws) ∷ []) ≡ out ++ (number, ws ++ vs) ∷ []
appends-last number [] ws out h = rw (append-nil ws)
appends-last number (v ∷ vs) ws out h = rw (append_value-last number v ws out h) (
    appends-last number vs (ws ++ v ∷ []) out h
    ∙ ap (λ l. out ++ (number, l) ∷ []) (append_assoc ws (v ∷ []) vs))

appends-new :
    (number : ℕ) (vs : List TypedValue) (out : Dict TypedValue)
    → vs ≢ []
    → Fresh number out
    → appends number vs out ≡ out ++ (number, vs) ∷ []
appends-new number [] out h fresh = absurd (h refl)
appends-new number (v ∷ vs) out h fresh =
    rw (append_value-new number v out fresh) (appends-last number vs (v ∷ []) out fresh)

-- No field number of the first message stands in the second.
abbrev Apart : Dict TypedValue → Dict TypedValue → Type 0
Apart [] out = Unit
Apart ((k, vs) ∷ msg) out = Fresh k out × Apart msg out

Fresh-snoc :
    (j k : ℕ) (vs : List TypedValue) (out : Dict TypedValue)
    → Fresh j out
    → k ≢ j
    → Fresh j (out ++ (k, vs) ∷ [])
Fresh-snoc j k vs [] h ne = (ne, tt)
Fresh-snoc j k vs (e ∷ out) h ne = (h.0, Fresh-snoc j k vs out h.1 ne)

Apart-snoc :
    (k : ℕ) (vs : List TypedValue) (msg out : Dict TypedValue)
    → Apart msg out
    → Fresh k msg
    → Apart msg (out ++ (k, vs) ∷ [])
Apart-snoc k vs [] out h fresh = tt
Apart-snoc k vs ((j, ws) ∷ msg) out h fresh =
    (Fresh-snoc j k vs out h.0 (λ e. fresh.0 (sym e)), Apart-snoc k vs msg out h.1 fresh.1)

Apart-nil : (msg : Dict TypedValue) → Apart msg []
Apart-nil [] = tt
Apart-nil (e ∷ msg) = (tt, Apart-nil msg)

run-encode_typed :
    (msg out : Dict TypedValue)
    → IsMessage msg
    → Apart msg out
    → run (encode_typed msg) out ≡ ok (out ++ msg)
unfolding encode_typed
run-encode_typed [] out h apart = unfold decode_loop in rw (append-nil out)
run-encode_typed ((number, vs) ∷ msg) out h apart =
    run-encode_values number vs (encode_typed msg) out h.0 h.2
    ∙ rw (appends-new number vs out h.1 apart.0) (
        run-encode_typed msg (out ++ (number, vs) ∷ []) h.4
          (Apart-snoc number vs msg out apart.1 h.3)
        ∙ ap ok (append_assoc out ((number, vs) ∷ []) msg))

-- A message of `decode_typed`'s form is read back from its encoding, wire types and order included.
pub decode_typed-encode_typed :
    (msg : Dict TypedValue) → IsMessage msg → decode_typed (encode_typed msg) ≡ ok msg
unfolding decode_typed
decode_typed-encode_typed msg h = run-encode_typed msg [] h (Apart-nil msg)
