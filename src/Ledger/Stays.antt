-- ===== src/Ledger/Stays.antt =====
-- fusion_relay/continuation.py: a stored turn and its acknowledgement through later calls.
pub mod Final
pub mod Acknowledged
use devin_fusion_via_codex.Common.{
  ℕ, zero, suc, ◌+◌, ◌≤◌, ◌≡◌, refl, sym, ap, ◌∙◌, ◌≢◌, Bool, true, false, not, ◌&&◌, ◌||◌, Option,
  none, some, List, [], ◌∷◌, ◌++◌, String, str_eq, eq_iff, ltb, ◌==◌, if◌then◌else◌, if_true,
  if_false, Bool-cases, inl, inr, ok, err, raise_if, ◌>>=◌, ◌>>◌, bind-ok, raised, ok-injective,
  arith,
}
use devin_fusion_via_codex.Ledger.Binding.{
  ContinuationBinding, Codec, seal, unseal, scope_of, revision_gap, integrity_error, carry_blocked,
}
use devin_fusion_via_codex.Ledger.State.{
  TurnState, result_committed, offered, history_evidenced, consumer_acknowledged, Turn, Ack, Ledger,
  turn_of, turns_of, clashes, place, any_status, is_unresolved,
}
use devin_fusion_via_codex.Ledger.Reserve.{evidence, is_unevidenced}
use devin_fusion_via_codex.Ledger.Accept.{
  mark_offered, mark_acknowledged, ack_of, offer_state, is_turn,
}
use devin_fusion_via_codex.Ledger.Epoch.{keep_others, carried_turn, carry_turns, carry}

-- How far a turn is accepted.
abbrev pub rank : TurnState → ℕ
rank result_committed = 0
rank offered = 1
rank history_evidenced = 2
rank consumer_acknowledged = 3

abbrev pub in_state : TurnState → Turn → Turn
in_state state t = record t { state = state }

-- The turn is stored, unchanged but for its state, which went no way back.
pub record Stays (s o : String) (t : Turn) (ts : List Turn) : Type 0 where
  pub state : TurnState
  pub found : turn_of s o ts ≡ some (in_state state t)
  pub forward : rank t.state ≤ rank state

-- A change of a row.
pub record Advance (t u : Turn) : Type 0 where
  pub state : TurnState
  pub only_state : u ≡ in_state state t
  pub forward : rank t.state ≤ rank state

unevidenced-rank : (state : TurnState) → is_unevidenced state ≡ true → rank state ≤ 2
unevidenced-rank result_committed h = omega arith
unevidenced-rank offered h = omega arith
unevidenced-rank history_evidenced h = omega arith
unevidenced-rank consumer_acknowledged h = absurd (ground arith)

offer_state-rank : (state : TurnState) → rank state ≤ rank (offer_state state)
offer_state-rank result_committed = omega arith
offer_state-rank offered = omega arith
offer_state-rank history_evidenced = omega arith
offer_state-rank consumer_acknowledged = omega arith

last-rank : (state : TurnState) → rank state ≤ 3
last-rank result_committed = omega arith
last-rank offered = omega arith
last-rank history_evidenced = omega arith
last-rank consumer_acknowledged = omega arith

unchanged-Advance : (t : Turn) → Advance t t
unchanged-Advance t = record { state = t.state; only_state = refl; forward = omega arith }

either-Advance : (b : Bool) (t u : Turn) → (b ≡ true → Advance t u) → Advance t (if b then u else t)
either-Advance true t u h = h refl
either-Advance false t u h = unchanged-Advance t

-- A change of all rows.
pub data Advanced : List Turn → List Turn → Type 0 where
  none_left : Advanced [] []
  one_more :
      {t u : Turn} {ts us : List Turn} → Advance t u → Advanced ts us → Advanced (t ∷ ts) (u ∷ us)

pub Advanced-Stays :
    (s o : String) (t : Turn) {ts us : List Turn}
    → Advanced ts us
    → turn_of s o ts ≡ some t
    → Stays s o t us
unfolding turn_of
Advanced-Stays s o t none_left h = absurd (ground arith)
Advanced-Stays s o t (one_more {t = v} {u = w} {ts = ts} {us = us} a as') h =
    elim (Bool-cases (is_turn s o v)) [
      | inl e ↦ record {
        state = a.state;
        found = ground (arith, a.only_state);
        forward = ground (arith, a.forward);
      }
      | inr e ↦
          let k = Advanced-Stays s o t as' (ground arith) in
          record {
            state = k.state;
            found = ground (arith, a.only_state, k.found);
            forward = k.forward;
          }
    ]

pub evidence-Advanced : (x : String) (ts : List Turn) → Advanced ts (evidence x ts)
unfolding evidence
evidence-Advanced x [] = none_left
evidence-Advanced x (t ∷ ts) =
    one_more
      (either-Advance _ t _ λ e. record {
        state = history_evidenced;
        only_state = refl;
        forward = unevidenced-rank t.state (ground arith);
      })
      (evidence-Advanced x ts)

pub mark_offered-Advanced : (x p : String) (ts : List Turn) → Advanced ts (mark_offered x p ts)
unfolding mark_offered
mark_offered-Advanced x p [] = none_left
mark_offered-Advanced x p (t ∷ ts) =
    one_more
      (either-Advance _ t _ λ e. record {
        state = offer_state t.state;
        only_state = refl;
        forward = offer_state-rank t.state;
      })
      (mark_offered-Advanced x p ts)

pub mark_acknowledged-Advanced :
    (x p : String) (ts : List Turn) → Advanced ts (mark_acknowledged x p ts)
unfolding mark_acknowledged
mark_acknowledged-Advanced x p [] = none_left
mark_acknowledged-Advanced x p (t ∷ ts) =
    one_more
      (either-Advance _ t _ λ e. record {
        state = consumer_acknowledged;
        only_state = refl;
        forward = last-rank t.state;
      })
      (mark_acknowledged-Advanced x p ts)

clashes-turn_of :
    (v : Turn) (ts : List Turn) → clashes v ts ≡ false → turn_of v.scope v.operation_id ts ≡ none
unfolding turn_of clashes
clashes-turn_of v [] h = refl
clashes-turn_of v (u ∷ us) h =
    ground
      (arith, clashes-turn_of v us, eq_iff u.scope v.scope, eq_iff u.operation_id v.operation_id)

place-turn_of :
    (s o : String) (v : Turn) (ts : List Turn)
    → is_turn s o v ≡ false
    → turn_of s o (place v ts) ≡ turn_of s o ts
unfolding turn_of place
place-turn_of s o v [] h = ground arith
place-turn_of s o v (u ∷ us) h = ground (arith, place-turn_of s o v us)

clash_other :
    (s o : String) (t v : Turn) (ts : List Turn)
    → clashes v ts ≡ false
    → turn_of s o ts ≡ some t
    → is_turn s o v ≡ false
clash_other s o t v ts k h = elim (Bool-cases (is_turn s o v)) [
  | inl e ↦ absurd (ground (arith, eq_iff v.scope s, eq_iff v.operation_id o, clashes-turn_of v ts))
  | inr e ↦ e
]

-- A row of another key goes in.
pub place-Stays :
    (s o : String) (t v : Turn) (ts : List Turn)
    → clashes v ts ≡ false
    → turn_of s o ts ≡ some t
    → turn_of s o (place v ts) ≡ some t
place-Stays s o t v ts k h = place-turn_of s o v ts (clash_other s o t v ts k h) ∙ h

module _ (c : Codec) (nonce : ℕ → String) (from to s o : String) (t : Turn) where
  carry_turns-Stays :
      (k : ℕ) (rows ts us : List Turn)
      → carry_turns c nonce from to k rows ts ≡ ok us
      → turn_of s o ts ≡ some t
      → turn_of s o us ≡ some t
  unfolding carry_turns
  carry_turns-Stays k [] ts us h e = ap (turn_of s o) (sym (ok-injective h)) ∙ e
  carry_turns-Stays k (v ∷ rows) ts us h e =
      let (u1, e1, h1) = bind-ok (raise_if (not (v.revision == k)) revision_gap) _ h in
      let (p, e2, h2) = bind-ok (unseal c from v.operation_id v.sealed) _ h1 in
      let (sealed, e3, h3) = bind-ok (seal c (nonce v.revision) to v.operation_id p) _ h2 in
      let (u4, e4, h4) =
        bind-ok (raise_if (clashes (carried_turn c to sealed v) ts) integrity_error) _ h3 in
      carry_turns-Stays (suc k) rows _ us h4
        (place-Stays s o t (carried_turn c to sealed v) ts (raised _ _ u4 e4) e)

abbrev carried_turns : Option String × ℕ × List Turn → List Turn
carried_turns x = x.2

pub carry-Stays :
    (c : Codec) (nonce : ℕ → String) (from : Option ContinuationBinding) (to s o : String)
    (t : Turn) (m : Ledger) (carried : Option String) (head : ℕ) (us : List Turn)
    → carry c nonce from to m ≡ ok (carried, head, us)
    → turn_of s o m.turns ≡ some t
    → turn_of s o us ≡ some t
unfolding carry
carry-Stays c nonce none to s o t m carried head us h e =
    ap (turn_of s o) (sym (ap carried_turns (ok-injective h))) ∙ e
carry-Stays c nonce (some b) to s o t m carried head us h e =
    let (scope, e1, h1) = bind-ok (scope_of c b) _ h in
    let (u, e2, h2) =
      bind-ok (raise_if (any_status is_unresolved scope m.operations) carry_blocked) _ h1 in
    let (ts, e3, h3) =
      bind-ok (carry_turns c nonce scope to 1 (turns_of scope m.turns) m.turns) _ h2 in
    ap (turn_of s o) (sym (ap carried_turns (ok-injective h3)))
    ∙ carry_turns-Stays c nonce scope to s o t 1 (turns_of scope m.turns) m.turns ts e3 e

pub turn_of-keep_others :
    (s o x : String) (ts : List Turn)
    → x ≢ s
    → turn_of s o (keep_others (λ (t : Turn). t.scope) x ts) ≡ turn_of s o ts
unfolding turn_of keep_others
turn_of-keep_others s o x [] d = refl
turn_of-keep_others s o x (t ∷ ts) d =
    ground (arith, turn_of-keep_others s o x ts, eq_iff t.scope s, eq_iff t.scope x)

pub ack_of-keep_others :
    (s o x : String) (as' : List Ack)
    → x ≢ s
    → ack_of s o (keep_others (λ (a : Ack). a.scope) x as') ≡ ack_of s o as'
unfolding ack_of keep_others
ack_of-keep_others s o x [] d = refl
ack_of-keep_others s o x (a ∷ as') d =
    ground (arith, ack_of-keep_others s o x as', eq_iff a.scope s, eq_iff a.scope x)

pub ack_of-append :
    (s o : String) (a : Ack) (as' more : List Ack)
    → ack_of s o as' ≡ some a
    → ack_of s o (as' ++ more) ≡ some a
unfolding ack_of
ack_of-append s o a [] more h = absurd (ground arith)
ack_of-append s o a (b ∷ as') more h = ground (arith, ack_of-append s o a as' more)
