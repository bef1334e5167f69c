-- ===== src/Ledger/Epoch.antt =====
-- fusion_relay/continuation.py: `transition_epoch`, `epoch_chain` and
-- `retire_scope`. The nonce that reseals a carried turn is an argument, by the turn's revision.
pub mod Walk
pub mod Links
pub mod Candidate
use devin_fusion_via_codex.Common.{
  ℕ, zero, suc, ◌+◌, Bool, true, false, not, ◌&&◌, ◌||◌, Option, none, some, List, [], ◌∷◌, ◌++◌,
  String, str_eq, ltb, ◌==◌, length, take, if◌then◌else◌, Result, ok, err, raise_if, ◌>>=◌, ◌>>◌,
}
use mathlib.Core.List.{reverse}
use devin_fusion_via_codex.Common.Json.{Json}
use devin_fusion_via_codex.Journal.Rows.{Operation}
use devin_fusion_via_codex.Journal.Delivery.{Delivery}
use devin_fusion_via_codex.Ledger.Binding.{
  ContinuationBinding, LedgerError, Codec, seal, unseal, scope_of, unbounded,
  unsupported_transition, invalid_epoch, carry_mismatch, transition_blocked, epoch_exists,
  carry_blocked, chain_invalid, scope_pending, revision_gap, integrity_error,
}
use devin_fusion_via_codex.Ledger.Visible.{visible_items}
use devin_fusion_via_codex.Ledger.State.{
  TurnState, consumer_acknowledged, Turn, Head, Ack, Transition, ScopeBinding, Ledger, Opened,
  turns, turns_of, head_of, or_zero, clashes, place, any_status, is_unresolved, record_scope,
}
use devin_fusion_via_codex.Ledger.Reserve.{anchor_of, departs, is_nil, is_none}

-- `reason in _EPOCH_REASONS`
unfoldable pub is_reason : String → Bool
is_reason r =
    str_eq r "model_switch"
    || (str_eq r "history_compaction"
        || (str_eq r "fork"
            || (str_eq r "account_change"
                || (str_eq r "legacy_history"
                    || (str_eq r "history_divergence" || str_eq r "operator_recovery")))))

abbrev pub same_lane : ContinuationBinding → ContinuationBinding → Bool
same_lane a b = str_eq a.account b.account && (str_eq a.lane b.lane && str_eq a.profile b.profile)

-- `carry_from is not None and …`
abbrev pub carry_differs : Option ContinuationBinding → ContinuationBinding → Bool
carry_differs none b = false
carry_differs (some from) b = not (same_lane from b)

-- SELECT to_scope, to_epoch … WHERE from_scope ORDER BY id DESC LIMIT 1
unfoldable pub newest : String → List Transition → Option Transition
newest s [] = none
newest s (t ∷ ts) = elim (newest s ts) [
  | some later ↦ some later
  | none ↦ if str_eq t.from_scope s then some t else none
]

unfoldable pub mem_text : String → List String → Bool
mem_text s [] = false
mem_text s (t ∷ ts) = str_eq t s || mem_text s ts

module _ (c : Codec) where
  -- A carried turn, resealed.
  abbrev pub carried_turn : String → String → Turn → Turn
  carried_turn to_scope sealed t = record t { scope = to_scope; sealed = sealed }

  -- The loop over the rows of the carried scope, which are to be numbered from `expected` on.
  unfoldable pub carry_turns :
      (ℕ → String) → String → String → ℕ → List Turn → List Turn → Result LedgerError (List Turn)
  carry_turns nonce from to_scope expected [] ts = ok ts
  carry_turns nonce from to_scope expected (t ∷ rows) ts = do
    raise_if (not (t.revision == expected)) revision_gap
    p ← unseal c from t.operation_id t.sealed
    sealed ← seal c (nonce t.revision) to_scope t.operation_id p
    raise_if (clashes (carried_turn to_scope sealed t) ts) integrity_error
    carry_turns nonce from to_scope (suc expected) rows (place (carried_turn to_scope sealed t) ts)

  -- The turns with those carried over, and the carried head.
  unfoldable pub carry :
      (ℕ → String)
      → Option ContinuationBinding
      → String
      → Ledger
      → Result LedgerError (Option String × ℕ × List Turn)
  unfolding carry_turns
  carry nonce none to_scope m = ok (none, 0, m.turns)
  carry nonce (some from) to_scope m = do
    scope ← scope_of c from
    raise_if (any_status is_unresolved scope m.operations) carry_blocked
    ts ← carry_turns nonce scope to_scope 1 (turns_of scope m.turns) m.turns
    ok (some scope, length (turns_of scope m.turns), ts)

  abbrev pub begin_epoch :
      String → String → ContinuationBinding → Option String → ℕ → List Turn → Ledger → Ledger
  begin_epoch from_scope to_scope b carried head ts m = record m {
    turns = ts;
    transitions =
        m.transitions
        ++ record {
          from_scope = from_scope;
          to_scope = to_scope;
          to_epoch = b.epoch;
          prior_head = or_zero (head_of from_scope m.heads);
          carried_from = carried;
        }
          ∷ [];
    heads = m.heads ++ record { scope = to_scope; revision = head } ∷ [];
    bindings = record_scope to_scope b m.bindings;
  }

  unfoldable pub transition_epoch :
      (ℕ → String)
      → ContinuationBinding
      → String
      → String
      → Option ContinuationBinding
      → Ledger
      → Result LedgerError (ContinuationBinding × Ledger)
  unfolding carry
  transition_epoch nonce b new_epoch reason carry_from m = do
    raise_if (not (is_reason reason)) unsupported_transition
    raise_if (unbounded new_epoch || str_eq new_epoch b.epoch) invalid_epoch
    raise_if (carry_differs carry_from b) carry_mismatch
    from_scope ← scope_of c b
    to_scope ← scope_of c (record b { epoch = new_epoch })
    raise_if (any_status is_unresolved from_scope m.operations) transition_blocked
    raise_if (not (is_none (head_of to_scope m.heads))) epoch_exists
    (carried, head, ts) ← carry nonce carry_from to_scope m
    ok (
      record b { epoch = new_epoch },
      begin_epoch from_scope to_scope (record b { epoch = new_epoch }) carried head ts m,
    )

  -- The loop of `epoch_chain`: `rounds` are left, and the chain behind `current` is returned.
  unfoldable pub follow :
      ℕ
      → ContinuationBinding
      → String
      → List String
      → Ledger
      → Result LedgerError (List ContinuationBinding)
  follow zero current scope seen m = err chain_invalid
  follow (suc rounds) current scope seen m = elim (newest scope m.transitions) [
    | none ↦ ok []
    | some t ↦ (do
      scope' ← scope_of c (record current { epoch = t.to_epoch })
      raise_if (mem_text scope' seen || not (str_eq scope' t.to_scope)) chain_invalid
      rest ← follow rounds (record current { epoch = t.to_epoch }) scope' (scope' ∷ seen) m
      ok (record current { epoch = t.to_epoch } ∷ rest))
  ]

  unfoldable pub epoch_chain :
      ContinuationBinding → Ledger → Result LedgerError (List ContinuationBinding)
  unfolding follow
  epoch_chain b m = do
    scope ← scope_of c b
    rest ← follow 1024 b scope (scope ∷ []) m
    ok (b ∷ rest)

  unfoldable pub last_of : ContinuationBinding → List ContinuationBinding → ContinuationBinding
  last_of b [] = b
  last_of b (d ∷ ds) = last_of d ds

  unfoldable pub resolve_epoch :
      ContinuationBinding → Ledger → Result LedgerError ContinuationBinding
  unfolding last_of
  resolve_epoch b m = do chain ← epoch_chain b m; ok (last_of b chain)

-- `state != 'consumer_acknowledged'`
abbrev pub is_acknowledged : TurnState → Bool
is_acknowledged consumer_acknowledged = true
is_acknowledged _ = false

unfoldable pub any_pending : String → List Turn → Bool
any_pending s [] = false
any_pending s (t ∷ ts) = (str_eq t.scope s && not (is_acknowledged t.state)) || any_pending s ts

-- DELETE FROM … WHERE scope
unfoldable pub keep_others {ℓ} : {A : Type ℓ} → (A → String) → String → List A → List A
keep_others scope s [] = []
keep_others scope s (x ∷ xs) =
    let rest = keep_others scope s xs in if str_eq (scope x) s then rest else x ∷ rest

unfoldable pub retire_scope : String → Ledger → Result LedgerError (Unit {0} × Ledger)
retire_scope s m = do
  raise_if (any_pending s m.turns || any_status is_unresolved s m.operations) scope_pending
  ok (
    tt,
    record m {
      turns = keep_others (λ (t : Turn). t.scope) s m.turns;
      heads = keep_others (λ (h : Head). h.scope) s m.heads;
      operations = keep_others (λ (o : Operation). o.scope) s m.operations;
      deliveries = keep_others (λ (d : Delivery). d.scope) s m.deliveries;
      acks = keep_others (λ (a : Ack). a.scope) s m.acks;
    },
  )
