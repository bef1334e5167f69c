-- ===== src/Ledger/Paid.antt =====
-- fusion_relay/continuation.py: an operation that was committed is replayed.
pub mod Replayed
use devin_fusion_via_codex.Common.{
  ℕ, ◌+◌, ◌≡◌, refl, sym, ap, ◌∙◌, ◌≢◌, Bool, true, false, not, ◌&&◌, ◌||◌, Option, none, some,
  List, [], ◌∷◌, ◌++◌, String, str_eq, eq_iff, ltb, if◌then◌else◌, if_true, if_false, ◌==◌,
  Bool-cases, inl, inr, Result, ok, err, raise_if, ◌>>=◌, ◌>>◌, bind-ok, raised, ok-second,
  ok-injective, arith,
}
use devin_fusion_via_codex.Common.Json.{Json, Object}
use devin_fusion_via_codex.Journal.Rows.{
  Status, executing, succeeded, Operation, fetch, finish, fetch-finish, fetch-append,
}
use devin_fusion_via_codex.Ledger.Binding.{
  ContinuationBinding, Codec, Payload, turn, seal, unseal, scope_of, unbounded, max_bytes,
  reservation_mismatch, stale_revision, integrity_error, identity_required, invalid_body,
}
use devin_fusion_via_codex.Ledger.Visible.{visible_items}
use devin_fusion_via_codex.Ledger.State.{
  Ledger, is_executing, is_unresolved, head_of, or_zero, clashes,
}
use devin_fusion_via_codex.Ledger.Reserve.{
  Reservation, Replay, Reserved, admitted, replayed, reservation_or, history_of, replay, replay_of,
  reserve_again, reserve_found, reserve, delete_row,
}
use devin_fusion_via_codex.Ledger.Reserve.Admission.{
  is_rejected, Cleared, absent, rejected, reserve-Admission, reserve_new-Checked,
}
use devin_fusion_via_codex.Ledger.Commit.{holds, new_turn, store_turn, commit}
use devin_fusion_via_codex.Ledger.Steps.{Step, Reach, here, next}
use devin_fusion_via_codex.Ledger.Steps.Changes.{
  Change, same, delivered, reserved, settled, committed, offered, acknowledged, began, retired,
}
use devin_fusion_via_codex.Ledger.Steps.Each.{Step-Change}
use devin_fusion_via_codex.Ledger.Lane.{fetch-delete_row, fetch-keep_others}

-- The operation succeeded with this row.
pub record Succeeded (s o : String) (row : Operation) (rows : List Operation) : Type 0 where
  pub found : fetch s o rows ≡ some row
  pub status : row.status ≡ succeeded

module _ (s o : String) (row : Operation) where
  Cleared-Succeeded :
      (x p : String) (m n : Ledger)
      → Cleared x p m n
      → Succeeded s o row m.operations
      → Succeeded s o row n.operations
  Cleared-Succeeded x p m n (absent e) h = h
  Cleared-Succeeded x p m n (rejected row' e k) h = record {
    found =
        ground
          (arith, fetch-delete_row s o x p m.operations, h.found, h.status, eq_iff s x, eq_iff o p);
    status = h.status;
  }

  finish-Succeeded :
      (x p : String) (status : Status) (result : Option String) (rows : List Operation)
      → (q : Operation) → fetch x p rows ≡ some q
      → is_unresolved q.status ≡ true
      → Succeeded s o row rows
      → Succeeded s o row (finish x p status result rows)
  finish-Succeeded x p status result rows q f u h = record {
    found =
        ground (
          arith,
          fetch-finish x p s o status result rows,
          h.found,
          h.status,
          eq_iff x s,
          eq_iff p o,
        );
    status = h.status;
  }

  module _ (c : Codec) where
    Change-Succeeded :
        {m n : Ledger}
        → Change c (λ x. x ≢ s) m n
        → Succeeded s o row m.operations
        → Succeeded s o row n.operations
    Change-Succeeded {m} {n} same h = h
    Change-Succeeded {m} {n} (delivered ds) h = h
    Change-Succeeded {m} {n} (reserved x p fingerprint base ts bs k idle known e) h =
        let kept = Cleared-Succeeded x p m base k h in
        record {
          found = ground (
            arith,
            fetch-append s o base.operations (
                record {
                  scope = x;
                  operation_id = p;
                  fingerprint = fingerprint;
                  status = executing;
                  result = none;
                }
                ∷ []),
            kept.found,
          );
          status = h.status;
        }
    Change-Succeeded {m} {n} (settled x p status result u) h =
        finish-Succeeded x p status result m.operations u.row u.found u.unresolved h
    Change-Succeeded {m} {n} (committed x p t result u e k clash) h =
        finish-Succeeded x p succeeded result m.operations u.row u.found u.unresolved h
    Change-Succeeded {m} {n} (offered x p ds) h = h
    Change-Succeeded {m} {n} (acknowledged x p revision digest reference ds e) h = h
    Change-Succeeded {m} {n} (began nonce from to b carry_from carried head ts e k) h = h
    Change-Succeeded {m} {n} (retired x d pending unresolved) h = record {
      found = ground (arith, fetch-keep_others s o x m.operations, h.found, eq_iff s x);
      status = h.status;
    }

    pub Reach-Succeeded :
        {m n : Ledger}
        → Succeeded s o row m.operations
        → Reach c (λ x. x ≢ s) m n
        → Succeeded s o row n.operations
    Reach-Succeeded h here = h
    Reach-Succeeded h (next {n} {o} r step) =
        Change-Succeeded (Step-Change c (λ x. x ≢ s) step) (Reach-Succeeded h r)

-- The row that `commit` leaves.
pub record Stored (s o fingerprint result : String) (rows : List Operation) : Type 0 where
  pub row : Operation
  pub succeeded : Succeeded s o row rows
  pub fingerprint_same : row.fingerprint ≡ fingerprint
  pub result_same : row.result ≡ some result

finish-Stored :
    (s o fingerprint result : String) (rows : List Operation) (found : Option Operation)
    → fetch s o rows ≡ found
    → holds fingerprint found ≡ true
    → Stored s o fingerprint result (finish s o succeeded (some result) rows)
unfolding holds
finish-Stored s o fingerprint result rows none f h = absurd (ground arith)
finish-Stored s o fingerprint result rows (some row) f h = record {
  row = record row { status = succeeded; result = some result };
  succeeded = record {
    found =
        ground (arith, fetch-finish s o s o succeeded (some result) rows, eq_iff s s, eq_iff o o);
    status = refl;
  };
  fingerprint_same = ground (arith, eq_iff row.fingerprint fingerprint);
  result_same = refl;
}

seal_encrypts :
    (c : Codec) (nonce s o : String) (p : Payload) (x : String)
    → seal c nonce s o p ≡ ok x
    → x ≡ c.encrypt nonce s o p
unfolding seal
seal_encrypts c nonce s o p x h = elim (Bool-cases (ltb max_bytes (c.size p))) [
  | inl e ↦ absurd (ground arith)
  | inr e ↦ sym (ok-injective (sym (if_false _ _ e) ∙ h))
]

module _ (c : Codec) (nonce nonce2 : String) (r : Reservation) (output : List Json) (wire : String)
    (m n : Ledger) (u : Unit {0}) where
  pub commit-Stored :
      commit c nonce nonce2 r output wire m ≡ ok (u, n)
      → Stored r.scope r.operation_id
          (c.body_digest r.native_body)
          (c.encrypt nonce2 r.scope r.operation_id (Payload.committed wire (r.revision + 1)))
          n.operations
  unfolding commit store_turn
  commit-Stored h =
      let (items, e1, h1) = bind-ok (visible_items output) _ h in
      let (sealed, e2, h2) =
        bind-ok (seal c nonce r.scope r.operation_id (turn r.native_body output)) _ h1 in
      let (result, e3, h3) =
        bind-ok (seal c nonce2 r.scope r.operation_id (Payload.committed wire (r.revision + 1))) _
          h2 in
      let (v4, e4, h4) =
        bind-ok
          (raise_if
            (not (holds (c.body_digest r.native_body) (fetch r.scope r.operation_id m.operations)))
            reservation_mismatch)
          _ h3 in
      let (v5, e5, h5) =
        bind-ok (raise_if (not (or_zero (head_of r.scope m.heads) == r.revision)) stale_revision) _
          h4 in
      let (v6, e6, h6) =
        bind-ok (raise_if (clashes (new_turn c r output wire sealed) m.turns) integrity_error) _
          h5 in
      rw (ok-second h6, ← seal_encrypts c nonce2 r.scope r.operation_id _ result e3)
        (finish-Stored r.scope r.operation_id (c.body_digest r.native_body) result m.operations _
          refl (ground (arith, raised _ _ v4 e4)))
