-- ===== src/Ledger/Stays/Final.antt =====
-- fusion_relay/continuation.py: acceptance through later calls.
use devin_fusion_via_codex.Common.{◌≡◌, refl, ◌∙◌, ◌≢◌, some, List, String, arith}
use devin_fusion_via_codex.Ledger.Binding.{Codec}
use devin_fusion_via_codex.Ledger.State.{Turn, Ack, Ledger, turn_of, place}
use devin_fusion_via_codex.Ledger.Reserve.Admission.{Cleared, absent, rejected}
use devin_fusion_via_codex.Ledger.Accept.{ack_of}
use devin_fusion_via_codex.Ledger.Steps.{Reach, here, next}
use devin_fusion_via_codex.Ledger.Steps.Changes.{
  Change, same, delivered, reserved, settled, committed, offered, acknowledged, began, retired,
  Evidenced, kept, shown,
}
use devin_fusion_via_codex.Ledger.Steps.Each.{Step-Change}
use devin_fusion_via_codex.Ledger.Stays.{
  in_state, Stays, Advanced-Stays, evidence-Advanced, mark_offered-Advanced,
  mark_acknowledged-Advanced, place-Stays, carry-Stays, turn_of-keep_others, ack_of-keep_others,
  ack_of-append,
}

Evidenced-Stays :
    (x s o : String) (t : Turn) (ts us : List Turn)
    → Evidenced x ts us
    → turn_of s o ts ≡ some t
    → Stays s o t us
Evidenced-Stays x s o t ts us kept h = record { state = t.state; found = h; forward = omega arith }
Evidenced-Stays x s o t ts us shown h = Advanced-Stays s o t (evidence-Advanced x ts) h

Cleared-turn_of :
    (x p s o : String) (m n : Ledger) → Cleared x p m n → turn_of s o n.turns ≡ turn_of s o m.turns
Cleared-turn_of x p s o m n (absent e) = refl
Cleared-turn_of x p s o m n (rejected row e h) = refl

Cleared-ack_of :
    (x p s o : String) (m n : Ledger) → Cleared x p m n → ack_of s o n.acks ≡ ack_of s o m.acks
Cleared-ack_of x p s o m n (absent e) = refl
Cleared-ack_of x p s o m n (rejected row e h) = refl

as_it_is : (s o : String) (t : Turn) (ts : List Turn) → turn_of s o ts ≡ some t → Stays s o t ts
as_it_is s o t ts h = record { state = t.state; found = h; forward = omega arith }

module _ (c : Codec) (s o : String) where
  Change-Stays :
      {m n : Ledger} (t : Turn)
      → Change c (λ x. x ≢ s) m n
      → turn_of s o m.turns ≡ some t
      → Stays s o t n.turns
  Change-Stays {m} {n} t same h = as_it_is s o t m.turns h
  Change-Stays {m} {n} t (delivered ds) h = as_it_is s o t m.turns h
  Change-Stays {m} {n} t (reserved x p fingerprint base ts bs k idle known e) h =
      Evidenced-Stays x s o t base.turns ts e (Cleared-turn_of x p s o m base k ∙ h)
  Change-Stays {m} {n} t (settled x p status result u) h = as_it_is s o t m.turns h
  Change-Stays {m} {n} t (committed x p v result u e k clash) h =
      as_it_is s o t (place v m.turns) (place-Stays s o t v m.turns clash h)
  Change-Stays {m} {n} t (offered x p ds) h =
      Advanced-Stays s o t (mark_offered-Advanced x p m.turns) h
  Change-Stays {m} {n} t (acknowledged x p revision digest reference ds e) h =
      Advanced-Stays s o t (mark_acknowledged-Advanced x p m.turns) h
  Change-Stays {m} {n} t (began nonce from to b carry_from carried head ts e k) h =
      as_it_is s o t ts (carry-Stays c nonce carry_from to s o t m carried head ts k h)
  Change-Stays {m} {n} t (retired x d pending unresolved) h =
      as_it_is s o t _ (turn_of-keep_others s o x m.turns d ∙ h)

  Change-ack_of :
      {m n : Ledger} (a : Ack)
      → Change c (λ x. x ≢ s) m n
      → ack_of s o m.acks ≡ some a
      → ack_of s o n.acks ≡ some a
  Change-ack_of {m} {n} a same h = h
  Change-ack_of {m} {n} a (delivered ds) h = h
  Change-ack_of {m} {n} a (reserved x p fingerprint base ts bs k idle known e) h =
      Cleared-ack_of x p s o m base k ∙ h
  Change-ack_of {m} {n} a (settled x p status result u) h = h
  Change-ack_of {m} {n} a (committed x p v result u e k clash) h = h
  Change-ack_of {m} {n} a (offered x p ds) h = h
  Change-ack_of {m} {n} a (acknowledged x p revision digest reference ds e) h =
      ack_of-append s o a m.acks _ h
  Change-ack_of {m} {n} a (began nonce from to b carry_from carried head ts e k) h = h
  Change-ack_of {m} {n} a (retired x d pending unresolved) h = ack_of-keep_others s o x m.acks d ∙ h

  -- A stored turn stays, whatever calls follow that do not retire its scope: nothing of it changes but
  -- its state, and that never goes back from acknowledged, evidenced or offered to an earlier one.
  pub Reach-Stays :
      {m n : Ledger} (t : Turn)
      → turn_of s o m.turns ≡ some t
      → Reach c (λ x. x ≢ s) m n
      → Stays s o t n.turns
  Reach-Stays {m} {n} t h here = as_it_is s o t m.turns h
  Reach-Stays {m} {n} t h (next {n = p} r step) =
      let before = Reach-Stays t h r in
      let after =
        Change-Stays (in_state before.state t) (Step-Change c (λ x. x ≢ s) step) before.found in
      record {
        state = after.state;
        found = after.found;
        forward = ground (arith, before.forward, after.forward);
      }

  pub Reach-ack_of :
      {m n : Ledger} (a : Ack)
      → ack_of s o m.acks ≡ some a
      → Reach c (λ x. x ≢ s) m n
      → ack_of s o n.acks ≡ some a
  Reach-ack_of a h here = h
  Reach-ack_of a h (next {n = p} r step) =
      Change-ack_of a (Step-Change c (λ x. x ≢ s) step) (Reach-ack_of a h r)
