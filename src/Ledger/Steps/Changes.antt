-- ===== src/Ledger/Steps/Changes.antt =====
-- fusion_relay/continuation.py: what the calls that succeed have checked, and the rows they change.
use devin_fusion_via_codex.Common.{
  ℕ, ◌+◌, ◌≡◌, refl, true, false, not, Option, none, some, List, String, str_eq, ◌==◌, ok, raise_if,
  bind-ok, raised, ok-second, arith,
}
use devin_fusion_via_codex.Common.Json.{Json}
use devin_fusion_via_codex.Journal.Rows.{
  Status, succeeded, failed, preflight_rejected, admission_rejected, Operation, fetch, finish,
  reserve_row,
}
use devin_fusion_via_codex.Journal.Delivery.{Delivery}
use devin_fusion_via_codex.Ledger.Binding.{
  ContinuationBinding, Codec, Payload, turn, resolution, seal, unsupported_resolution,
  evidence_required, not_unresolved, reservation_mismatch, stale_revision, integrity_error,
}
use devin_fusion_via_codex.Ledger.Visible.{visible_items}
use devin_fusion_via_codex.Ledger.State.{
  Turn, Ledger, head_of, or_zero, put_head, clashes, place, any_status, is_executing, is_unknown,
  is_unresolved, ScopeBinding,
}
use devin_fusion_via_codex.Ledger.Reserve.{Reservation, evidence}
use devin_fusion_via_codex.Ledger.Reserve.Admission.{Cleared}
use devin_fusion_via_codex.Ledger.Commit.{
  holds, row_unresolved, is_evidence, new_turn, Reason, preflight, admission, other_reason,
  settle_executing, abandon, resolve_unknown, store_turn, commit,
}
use devin_fusion_via_codex.Ledger.Accept.{mark_offered, store_ack, ack_of}
use devin_fusion_via_codex.Ledger.Epoch.{carry, begin_epoch, keep_others, any_pending}

-- The turns of a scope that `reserve` evidenced, or the turns as they were.
pub data Evidenced (s : String) (ts : List Turn) : List Turn → Type 0 where
  kept : Evidenced s ts ts
  shown : Evidenced s ts (evidence s ts)

-- The operation is there and unresolved.
pub record Unresolved (s o : String) (rows : List Operation) : Type 0 where
  pub row : Operation
  pub found : fetch s o rows ≡ some row
  pub unresolved : is_unresolved row.status ≡ true

pub data Change (c : Codec) (P : String → Type 0) (m : Ledger) : Ledger → Type 0 where
  same : Change c P m m
  delivered : (ds : List Delivery) → Change c P m (record m { deliveries = ds })
  reserved :
      (s o fingerprint : String) (base : Ledger) (ts : List Turn) (bs : List ScopeBinding)
      → Cleared s o m base
      → any_status is_executing s base.operations ≡ false
      → any_status is_unknown s base.operations ≡ false
      → Evidenced s base.turns ts
      → Change c P m (record base {
        turns = ts;
        operations = reserve_row s o fingerprint base.operations;
        bindings = bs;
      })
  settled :
      (s o : String) (status : Status) (result : Option String)
      → Unresolved s o m.operations
      → Change c P m (record m { operations = finish s o status result m.operations })
  committed :
      (s o : String) (t : Turn) (result : Option String)
      → Unresolved s o m.operations
      → t.scope ≡ s
      → t.revision ≡ or_zero (head_of s m.heads) + 1
      → clashes t m.turns ≡ false
      → Change c P m (record m {
        turns = place t m.turns;
        heads = put_head s t.revision m.heads;
        operations = finish s o succeeded result m.operations;
      })
  offered :
      (s o : String) (ds : List Delivery)
      → Change c P m (record m { deliveries = ds; turns = mark_offered s o m.turns })
  acknowledged :
      (s o : String) (revision : ℕ) (digest reference : String) (ds : List Delivery)
      → ack_of s o m.acks ≡ none
      → Change c P m (store_ack s o revision digest reference ds m)
  began :
      (nonce : ℕ → String) (from_scope to_scope : String) (b : ContinuationBinding)
      (carry_from : Option ContinuationBinding) (carried : Option String) (head : ℕ)
      (ts : List Turn)
      → head_of to_scope m.heads ≡ none
      → carry c nonce carry_from to_scope m ≡ ok (carried, head, ts)
      → Change c P m (begin_epoch c from_scope to_scope b carried head ts m)
  retired :
      (s : String)
      → P s
      → any_pending s m.turns ≡ false
      → any_status is_unresolved s m.operations ≡ false
      → Change c P m (record m {
        turns = keep_others (λ t. t.scope) s m.turns;
        heads = keep_others (λ h. h.scope) s m.heads;
        operations = keep_others (λ o. o.scope) s m.operations;
        deliveries = keep_others (λ d. d.scope) s m.deliveries;
        acks = keep_others (λ a. a.scope) s m.acks;
      })

holds-Unresolved :
    (fingerprint s o : String) (rows : List Operation) (found : Option Operation)
    → fetch s o rows ≡ found
    → not (holds fingerprint found) ≡ false
    → Unresolved s o rows
unfolding holds
holds-Unresolved f s o rows none e h = absurd (ground arith)
holds-Unresolved f s o rows (some row) e h = record {
  row = row;
  found = e;
  unresolved = ground (arith);
}

row_unresolved-Unresolved :
    (s o : String) (rows : List Operation) (found : Option Operation)
    → fetch s o rows ≡ found
    → not (row_unresolved found) ≡ false
    → Unresolved s o rows
unfolding row_unresolved
row_unresolved-Unresolved s o rows none e h = absurd (ground arith)
row_unresolved-Unresolved s o rows (some row) e h = record {
  row = row;
  found = e;
  unresolved = ground (arith);
}

module _ (c : Codec) (P : String → Type 0) where
  pub settle-Change :
      (r : Reservation) (status : Status) (m n : Ledger) (u : Unit {0})
      → settle_executing c r status m ≡ ok (u, n)
      → Change c P m n
  unfolding settle_executing
  settle-Change r status m n u h =
      let (v, e, h1) =
        bind-ok
          (raise_if
            (not (holds (c.body_digest r.native_body) (fetch r.scope r.operation_id m.operations)))
            reservation_mismatch)
          _ h in
      let found = holds-Unresolved _ r.scope r.operation_id m.operations _ refl (raised _ _ v e) in
      rw (ok-second h1) (settled r.scope r.operation_id status none found)

  pub abandon-Change :
      (r : Reservation) (reason : Reason) (m n : Ledger) (u : Unit {0})
      → abandon c r reason m ≡ ok (u, n)
      → Change c P m n
  unfolding abandon
  abandon-Change r preflight m n u h = settle-Change r preflight_rejected m n u h
  abandon-Change r admission m n u h = settle-Change r admission_rejected m n u h
  abandon-Change r other_reason m n u h = absurd (ground arith)

  pub resolve-Change :
      (nonce s o ref outcome : String) (m n : Ledger) (u : Unit {0})
      → resolve_unknown c nonce s o ref outcome m ≡ ok (u, n)
      → Change c P m n
  unfolding resolve_unknown
  resolve-Change nonce s o ref outcome m n u h =
      let (v1, e1, h1) =
        bind-ok (raise_if (not (str_eq outcome "abandoned")) unsupported_resolution) _ h in
      let (v2, e2, h2) = bind-ok (raise_if (not (is_evidence ref)) evidence_required) _ h1 in
      let (v3, e3, h3) =
        bind-ok (raise_if (not (row_unresolved (fetch s o m.operations))) not_unresolved) _ h2 in
      let (sealed, e4, h4) = bind-ok (seal c nonce s o (resolution ref)) _ h3 in
      rw (ok-second h4) (
        settled s o failed (some sealed)
          (row_unresolved-Unresolved s o m.operations _ refl (raised _ _ v3 e3)))

  store_turn-Change :
      (r : Reservation) (output : List Json) (wire sealed result : String) (m n : Ledger)
      (u : Unit {0})
      → store_turn c r output wire sealed result m ≡ ok (u, n)
      → Change c P m n
  unfolding store_turn
  store_turn-Change r output wire sealed result m n u h =
      let (v1, e1, h1) =
        bind-ok
          (raise_if
            (not (holds (c.body_digest r.native_body) (fetch r.scope r.operation_id m.operations)))
            reservation_mismatch)
          _ h in
      let (v2, e2, h2) =
        bind-ok (raise_if (not (or_zero (head_of r.scope m.heads) == r.revision)) stale_revision) _
          h1 in
      let (v3, e3, h3) =
        bind-ok (raise_if (clashes (new_turn c r output wire sealed) m.turns) integrity_error) _
          h2 in
      let found =
        holds-Unresolved _ r.scope r.operation_id m.operations _ refl (raised _ _ v1 e1) in
      rw (ok-second h3) (
        committed r.scope r.operation_id (new_turn c r output wire sealed) (some result) found refl
          (ground (arith, raised _ _ v2 e2)) (raised _ _ v3 e3))

  pub commit-Change :
      (nonce nonce2 : String) (r : Reservation) (output : List Json) (wire : String) (m n : Ledger)
      (u : Unit {0})
      → commit c nonce nonce2 r output wire m ≡ ok (u, n)
      → Change c P m n
  unfolding commit
  commit-Change nonce nonce2 r output wire m n u h =
      let (items, e1, h1) = bind-ok (visible_items output) _ h in
      let (sealed, e2, h2) =
        bind-ok (seal c nonce r.scope r.operation_id (turn r.native_body output)) _ h1 in
      let (result, e3, h3) =
        bind-ok (seal c nonce2 r.scope r.operation_id (Payload.committed wire (r.revision + 1))) _
          h2 in
      store_turn-Change r output wire sealed result m n u h3
