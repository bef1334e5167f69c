-- ===== src/Ledger/Stays/Acknowledged.antt =====
-- fusion_relay/continuation.py: `acknowledge_result` and `acceptance_state` after an acknowledgement.
use devin_fusion_via_codex.Common.{
  ℕ, ◌≤◌, ◌≡◌, refl, sym, ◌∙◌, ◌≢◌, Bool, true, false, not, ◌&&◌, Option, none, some, List, [], ◌∷◌,
  ◌++◌, String, str_eq, eq_iff, ◌==◌, if◌then◌else◌, Bool-cases, inl, inr, Result, ok, err,
  raise_if, bind-ok, raised, ok-second, ok-injective, arith,
}
use devin_fusion_via_codex.Journal.Delivery.{existing}
use devin_fusion_via_codex.Ledger.Binding.{
  ContinuationBinding, Codec, LedgerError, scope_of, consumer_for, acknowledgement_mismatch,
  conflicting_acknowledgement,
}
use devin_fusion_via_codex.Ledger.State.{
  TurnState, result_committed, offered, history_evidenced, consumer_acknowledged, Turn, Ack, Ledger,
  turn_of,
}
use devin_fusion_via_codex.Ledger.Accept.{
  acknowledged, acceptance_state, mark_acknowledged, ack_of, matches_turn, same_ack,
  acknowledge_prior, acknowledge_result, settle_delivery,
}
use devin_fusion_via_codex.Ledger.Steps.{Reach}
use devin_fusion_via_codex.Ledger.Stays.{rank, in_state}
use devin_fusion_via_codex.Ledger.Stays.Final.{Reach-Stays, Reach-ack_of}

abbrev pub ack_row : String → String → ℕ → String → String → Ack
ack_row s o revision digest reference = record {
  scope = s;
  operation_id = o;
  revision = revision;
  response_digest = digest;
  reference = reference;
}

-- The acknowledgement and the turn it is of.
pub record IsAcknowledged (s o : String) (revision : ℕ) (digest reference : String) (m : Ledger)
    : Type 0 where
  pub turn : Turn
  pub found : turn_of s o m.turns ≡ some turn
  pub stored : ack_of s o m.acks ≡ some (ack_row s o revision digest reference)
  pub state_last : turn.state ≡ consumer_acknowledged
  pub revision_same : turn.revision ≡ revision
  pub digest_same : turn.response_digest ≡ digest

last_state : (state : TurnState) → 3 ≤ rank state → state ≡ consumer_acknowledged
last_state result_committed h = absurd (omega arith)
last_state offered h = absurd (omega arith)
last_state history_evidenced h = absurd (omega arith)
last_state consumer_acknowledged h = refl

ack_of-added :
    (s o : String) (a : Ack) (as' : List Ack)
    → a.scope ≡ s
    → a.operation_id ≡ o
    → ack_of s o as' ≡ none
    → ack_of s o (as' ++ (a ∷ [])) ≡ some a
unfolding ack_of
ack_of-added s o a [] e f h = ground (arith, eq_iff a.scope s, eq_iff a.operation_id o)
ack_of-added s o a (b ∷ as') e f h = ground (arith, ack_of-added s o a as')

marked :
    (s o : String) (t : Turn) (ts : List Turn)
    → turn_of s o ts ≡ some t
    → turn_of s o (mark_acknowledged s o ts) ≡ some (in_state consumer_acknowledged t)
unfolding turn_of mark_acknowledged
marked s o t [] h = absurd (ground arith)
marked s o t (u ∷ us) h = ground (arith, marked s o t us)

module _ (s o consumer : String) (revision : ℕ) (digest reference : String) (m n : Ledger) where
  prior-IsAcknowledged :
      (found : Option Ack) (t : Turn)
      → ack_of s o m.acks ≡ found
      → turn_of s o m.turns ≡ some t
      → t.revision ≡ revision
      → t.response_digest ≡ digest
      → acknowledge_prior s o consumer revision digest reference found m ≡ ok (false, n)
      → IsAcknowledged s o revision digest reference n
  unfolding acknowledge_prior
  prior-IsAcknowledged (some a) t f g e k h =
      elim (Bool-cases (same_ack revision digest reference a)) [
        | inl y ↦ absurd (ground arith)
        | inr y ↦ absurd (ground arith)
      ]
  prior-IsAcknowledged none t f g e k h =
      let (ds, e1, h1) =
        bind-ok (settle_delivery s consumer (existing s o consumer m.deliveries) m.deliveries) _
          h in
      rw (ok-second h1) record {
        turn = in_state consumer_acknowledged t;
        found = marked s o t m.turns g;
        stored = ack_of-added s o (ack_row s o revision digest reference) m.acks refl refl f;
        state_last = refl;
        revision_same = e;
        digest_same = k;
      }

  turn_matches :
      (found : Option Turn)
      → matches_turn revision digest found ≡ true
      → (t : Turn) × (found ≡ some t) × (t.revision ≡ revision) × (t.response_digest ≡ digest)
  unfolding matches_turn
  turn_matches none h = absurd (ground arith)
  turn_matches (some t) h = (t, refl, ground arith, ground (arith, eq_iff t.response_digest digest))

module _ (c : Codec) (b : ContinuationBinding) (o : String) (revision : ℕ)
    (digest reference : String) (m n : Ledger) where
  acknowledge_result-IsAcknowledged :
      (s : String)
      → scope_of c b ≡ ok s
      → acknowledge_result c b o revision digest reference m ≡ ok (false, n)
      → IsAcknowledged s o revision digest reference n
  unfolding acknowledge_result
  acknowledge_result-IsAcknowledged s k h =
      let (scope, e1, h1) = bind-ok (scope_of c b) _ h in
      let (consumer, e2, h2) = bind-ok (consumer_for b) _ h1 in
      let (u, e3, h3) =
        bind-ok
          (raise_if (not (matches_turn revision digest (turn_of scope o m.turns)))
            acknowledgement_mismatch)
          _ h2 in
      let (t, f, g, d) =
        turn_matches s o consumer revision digest reference m n (turn_of scope o m.turns)
          (ground (arith, raised _ _ u e3)) in
      rw (← (ok-injective (sym e1 ∙ k))) (
        prior-IsAcknowledged scope o consumer revision digest reference m n (ack_of scope o m.acks)
          t refl f g d h3)

Reach-IsAcknowledged :
    (c : Codec) (s o : String) (revision : ℕ) (digest reference : String) (m n : Ledger)
    → IsAcknowledged s o revision digest reference m
    → Reach c (λ x. x ≢ s) m n
    → IsAcknowledged s o revision digest reference n
Reach-IsAcknowledged c s o revision digest reference m n a r =
    let k = Reach-Stays c s o a.turn a.found r in
    record {
      turn = in_state k.state a.turn;
      found = k.found;
      stored = Reach-ack_of c s o _ a.stored r;
      state_last = last_state k.state (ground (arith, k.forward, a.state_last));
      revision_same = a.revision_same;
      digest_same = a.digest_same;
    }

abbrev pub answer :
    ℕ → String → String → ℕ → String → String → Ledger → Result LedgerError (Bool × Ledger)
answer revision digest reference revision' digest' reference' m =
    if (revision == revision') && str_eq digest digest'
    then (if str_eq reference reference' then ok (true, m) else err conflicting_acknowledgement)
    else err acknowledgement_mismatch

may_last :
    (revision : ℕ) (digest : String) (t : Turn)
    → t.state ≡ consumer_acknowledged
    → matches_turn revision digest (some t)
      ≡ (t.revision == revision) && str_eq t.response_digest digest
unfolding matches_turn
may_last revision digest t e = ground arith

prior_some :
    (s o consumer : String) (revision : ℕ) (digest reference : String) (a : Ack) (m : Ledger)
    → acknowledge_prior s o consumer revision digest reference (some a) m ≡ (
        if same_ack revision digest reference a
        then ok (true, m)
        else err conflicting_acknowledgement)
unfolding acknowledge_prior
prior_some s o consumer revision digest reference a m = refl

module _ (c : Codec) (b : ContinuationBinding) (s o consumer : String) (revision : ℕ)
    (digest reference : String) (m : Ledger) where
  acceptance_state-last :
      scope_of c b ≡ ok s
      → IsAcknowledged s o revision digest reference m
      → acceptance_state c b o m ≡ ok acknowledged
  unfolding acceptance_state
  acceptance_state-last e a = rw (e, a.found) (rw (a.state_last) refl)

  acknowledge_result_again :
      scope_of c b ≡ ok s
      → consumer_for b ≡ ok consumer
      → IsAcknowledged s o revision digest reference m
      → (revision' : ℕ) (digest' reference' : String)
      → acknowledge_result c b o revision' digest' reference' m
        ≡ answer revision digest reference revision' digest' reference' m
  unfolding acknowledge_result
  acknowledge_result_again e f a revision' digest' reference' =
      rw
        (
          e,
          f,
          a.found,
          a.stored,
          prior_some,
          may_last revision' digest' a.turn a.state_last,
          a.revision_same,
          a.digest_same,
        )
        (ground arith)

module _ (c : Codec) (b : ContinuationBinding) (s o : String) (revision : ℕ)
    (digest reference : String) (m n p : Ledger) where
  acknowledge_result-consumer :
      acknowledge_result c b o revision digest reference m ≡ ok (false, n)
      → (consumer : String) × (consumer_for b ≡ ok consumer)
  unfolding acknowledge_result
  acknowledge_result-consumer h =
      let (scope, e1, h1) = bind-ok (scope_of c b) _ h in
      let (consumer, e2, h2) = bind-ok (consumer_for b) _ h1 in (consumer, e2)

  -- After a first acknowledgement, whatever calls follow that do not retire the scope, the operation's
  -- acceptance is acknowledged, and a call of acknowledge_result with its binding changes nothing: it
  -- answers True to the same revision, digest and reference, and raises a conflict where only the
  -- reference differs and a mismatch otherwise.
  pub acknowledge_is_final :
      scope_of c b ≡ ok s
      → acknowledge_result c b o revision digest reference m ≡ ok (false, n)
      → Reach c (λ x. x ≢ s) n p
      → (revision' : ℕ) (digest' reference' : String)
      → (acceptance_state c b o p ≡ ok acknowledged)
        × (acknowledge_result c b o revision' digest' reference' p
            ≡ answer revision digest reference revision' digest' reference' p)
  acknowledge_is_final e h r revision' digest' reference' =
      let (consumer, f) = acknowledge_result-consumer h in
      let a =
        Reach-IsAcknowledged c s o revision digest reference n p
          (acknowledge_result-IsAcknowledged c b o revision digest reference m n s e h) r in
      (
        acceptance_state-last c b s o consumer revision digest reference p e a,
        acknowledge_result_again c b s o consumer revision digest reference p e f a revision'
            digest' reference',
      )
