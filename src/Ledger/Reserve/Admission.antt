-- ===== src/Ledger/Reserve/Admission.antt =====
-- fusion_relay/continuation.py: what a call of `reserve` that admits an operation has checked.
use devin_fusion_via_codex.Common.{
  ◌≡◌, refl, sym, ap, Bool, true, false, not, ◌&&◌, Bool-cases, inl, inr, Option, none, some, List,
  String, str_eq, ltb, leb, ◌==◌, length, ok, raise_if, bind-ok, ok-injective, raised, arith,
}
use devin_fusion_via_codex.Common.Json.{Json, Object}
use devin_fusion_via_codex.Journal.Rows.{
  Status, executing, succeeded, failed, cancelled, outcome_unknown, preflight_rejected,
  admission_rejected, provider_outcome_unknown, cancel_unconfirmed, Operation, fetch,
}
use devin_fusion_via_codex.Ledger.Binding.{
  ContinuationBinding, Payload, turn, committed, resolution, Codec, scope_of, unbounded, max_bytes,
  max_scopes, max_turns, identity_required, invalid_body, unseal, already_reserved, lane_unresolved,
  history_missing, retention_limit, legacy_unavailable,
}
use devin_fusion_via_codex.Ledger.State.{
  Ledger, Opened, turns, head_of, or_zero, any_status, is_executing, is_unknown,
}
use devin_fusion_via_codex.Ledger.Reserve.{
  Reservation, Reserved, admitted, replayed, history_of, splices, Splice, delete_row, reserve,
  reserve_found, reserve_again, reserve_new, admit_new, replay, replay_of, is_nil, is_none,
  any_legacy,
}

-- The statuses whose row `reserve` deletes and admits anew.
abbrev pub is_rejected : Status → Bool
is_rejected preflight_rejected = true
is_rejected admission_rejected = true
is_rejected _ = false

-- The operation was not there, or it was rejected and its row is gone.
pub data Cleared (scope operation_id : String) (m : Ledger) : Ledger → Type 0 where
  absent : fetch scope operation_id m.operations ≡ none → Cleared scope operation_id m m
  rejected :
      (row : Operation)
      → fetch scope operation_id m.operations ≡ some row
      → is_rejected row.status ≡ true
      → Cleared scope operation_id m
          (record m { operations = delete_row scope operation_id m.operations })

module _ (c : Codec) where
  pub record Admission (b : ContinuationBinding) (operation_id : String) (body : Object)
      (m : Ledger) (r : Reservation) (n : Ledger) : Type 0 where
    pub scope : String
    pub history : List Json
    pub base : Ledger
    pub scoped : scope_of c b ≡ ok scope
    pub named : unbounded operation_id ≡ false
    pub sized : ltb max_bytes (c.body_size body) ≡ false
    pub read : history_of body ≡ ok history
    pub cleared : Cleared scope operation_id m base
    pub fresh : reserve_new c b scope operation_id body history base ≡ ok (admitted r, n)

  abbrev pub is_replay : Reserved → Bool
  is_replay (replayed p) = true
  is_replay (admitted r) = false

  replay_of-IsReplay :
      (scope operation_id : String) (p : Payload) (x : Reserved)
      → replay_of c scope operation_id p ≡ ok x
      → is_replay x ≡ true
  unfolding replay_of
  replay_of-IsReplay scope operation_id (committed wire revision) x h = ground arith
  replay_of-IsReplay scope operation_id (turn i o) x h = absurd (ground arith)
  replay_of-IsReplay scope operation_id (resolution e) x h = absurd (ground arith)

  replay-IsReplay :
      (scope operation_id : String) (sealed : Option String) (x : Reserved)
      → replay c scope operation_id sealed ≡ ok x
      → is_replay x ≡ true
  unfolding replay
  replay-IsReplay scope operation_id none x h = absurd (ground arith)
  replay-IsReplay scope operation_id (some sealed) x h =
      let (p, e, h1) = bind-ok (unseal c scope operation_id sealed) _ h in
      replay_of-IsReplay scope operation_id p x h1

  -- What the row of the operation leaves to be done.
  record Fresh (b : ContinuationBinding) (scope operation_id : String) (body : Object)
      (history : List Json) (m : Ledger) (r : Reservation) (n : Ledger) : Type 0 where
    pub base : Ledger
    pub cleared : Cleared scope operation_id m base
    pub fresh : reserve_new c b scope operation_id body history base ≡ ok (admitted r, n)

  reserve_again-Fresh :
      (b : ContinuationBinding) (scope operation_id : String) (body : Object) (history : List Json)
      (row : Operation) (s : Status) (m : Ledger) (r : Reservation) (n : Ledger)
      → fetch scope operation_id m.operations ≡ some row
      → row.status ≡ s
      → reserve_again c b scope operation_id body history row s m ≡ ok (admitted r, n)
      → Fresh b scope operation_id body history m r n
  unfolding reserve_again
  reserve_again-Fresh b scope o body hs row preflight_rejected m r n f e h = record {
    base = _;
    cleared = rejected row f (ap is_rejected e);
    fresh = h;
  }
  reserve_again-Fresh b scope o body hs row admission_rejected m r n f e h = record {
    base = _;
    cleared = rejected row f (ap is_rejected e);
    fresh = h;
  }
  reserve_again-Fresh b scope o body hs row succeeded m r n f e h =
      let (x, ex, h1) = bind-ok (replay c scope o row.result) _ h in
      let is = replay-IsReplay scope o row.result x ex in absurd (ground arith)
  reserve_again-Fresh b scope o body hs row provider_outcome_unknown m r n f e h =
      absurd (ground arith)
  reserve_again-Fresh b scope o body hs row cancel_unconfirmed m r n f e h = absurd (ground arith)
  reserve_again-Fresh b scope o body hs row executing m r n f e h = absurd (ground arith)
  reserve_again-Fresh b scope o body hs row failed m r n f e h = absurd (ground arith)
  reserve_again-Fresh b scope o body hs row cancelled m r n f e h = absurd (ground arith)
  reserve_again-Fresh b scope o body hs row outcome_unknown m r n f e h = absurd (ground arith)

  reserve_found-Fresh :
      (b : ContinuationBinding) (scope operation_id : String) (body : Object) (history : List Json)
      (found : Option Operation) (m : Ledger) (r : Reservation) (n : Ledger)
      → fetch scope operation_id m.operations ≡ found
      → reserve_found c b scope operation_id body history found m ≡ ok (admitted r, n)
      → Fresh b scope operation_id body history m r n
  unfolding reserve_found
  reserve_found-Fresh b scope o body hs none m r n f h = record {
    base = m;
    cleared = absent f;
    fresh = h;
  }
  reserve_found-Fresh b scope o body hs (some row) m r n f h =
      elim (Bool-cases (str_eq row.fingerprint (c.body_digest body))) [
        | inl same ↦
            reserve_again-Fresh b scope o body hs row row.status m r n f refl (ground arith)
        | inr other ↦ absurd (ground arith)
      ]

  pub reserve-Admission :
      (b : ContinuationBinding) (operation_id : String) (body : Object) (m : Ledger)
      (r : Reservation) (n : Ledger)
      → reserve c b operation_id body m ≡ ok (admitted r, n)
      → Admission b operation_id body m r n
  unfolding reserve
  reserve-Admission b o body m r n h =
      let (scope, scoped, h1) = bind-ok (scope_of c b) _ h in
      let (u, e2, h2) = bind-ok (raise_if (unbounded o) identity_required) _ h1 in
      let (v, e3, h3) = bind-ok (raise_if (ltb max_bytes (c.body_size body)) invalid_body) _ h2 in
      let (hs, read, h4) = bind-ok (history_of body) _ h3 in
      let f = reserve_found-Fresh b scope o body hs (fetch scope o m.operations) m r n refl h4 in
      record {
        scope = scope;
        history = hs;
        base = f.base;
        scoped = scoped;
        named = raised _ _ u e2;
        sized = raised _ _ v e3;
        read = read;
        cleared = f.cleared;
        fresh = f.fresh;
      }

  -- What the checks of a new reservation found.
  pub record Checked (b : ContinuationBinding) (scope operation_id : String) (body : Object)
      (history : List Json) (m : Ledger) (x : Reserved) (n : Ledger) : Type 0 where
    pub opened : List Opened
    pub splices_found : List Splice
    pub idle : any_status is_executing scope m.operations ≡ false
    pub known : any_status is_unknown scope m.operations ≡ false
    pub opens : turns c scope m ≡ ok opened
    pub headed : or_zero (head_of scope m.heads) ≡ length opened
    pub spliced : splices history 0 opened ≡ ok splices_found
    pub result : (x, n) ≡ admit_new c b scope operation_id body history splices_found opened m

  pub reserve_new-Checked :
      (b : ContinuationBinding) (scope operation_id : String) (body : Object) (history : List Json)
      (m : Ledger) (x : Reserved) (n : Ledger)
      → reserve_new c b scope operation_id body history m ≡ ok (x, n)
      → Checked b scope operation_id body history m x n
  unfolding reserve_new
  reserve_new-Checked b s o body hs m x n h =
      let (u1, e1, h1) =
        bind-ok (raise_if (any_status is_executing s m.operations) already_reserved) _ h in
      let (u2, e2, h2) =
        bind-ok (raise_if (any_status is_unknown s m.operations) lane_unresolved) _ h1 in
      let (opened, e3, h3) = bind-ok (turns c s m) _ h2 in
      let (u4, e4, h4) =
        bind-ok (raise_if (not (or_zero (head_of s m.heads) == length opened)) history_missing) _
          h3 in
      let (u5, e5, h5) =
        bind-ok
          (raise_if (is_none (head_of s m.heads) && leb max_scopes (length m.heads))
            retention_limit)
          _ h4 in
      let (u6, e6, h6) = bind-ok (raise_if (leb max_turns (length opened)) retention_limit) _ h5 in
      let (rs, e7, h7) = bind-ok (splices hs 0 opened) _ h6 in
      let (u8, e8, h8) =
        bind-ok
          (raise_if (is_nil opened && (is_none (head_of s m.heads) && any_legacy hs))
            legacy_unavailable)
          _ h7 in
      record {
        opened = opened;
        splices_found = rs;
        idle = raised _ _ u1 e1;
        known = raised _ _ u2 e2;
        opens = e3;
        headed = ground (arith, raised _ _ u4 e4);
        spliced = e7;
        result = sym (ok-injective h8);
      }
