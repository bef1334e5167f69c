-- ===== src/Ledger/Lane/Single.antt =====
-- fusion_relay/continuation.py: every call leaves one unresolved operation of a scope at most.
use devin_fusion_via_codex.Common.{
  ◌≡◌, refl, sym, ap, ◌∙◌, true, false, none, List, String, eq_iff, ok, arith,
}
use devin_fusion_via_codex.Common.Json.{Object}
use devin_fusion_via_codex.Journal.Rows.{
  Status, executing, succeeded, failed, cancelled, outcome_unknown, preflight_rejected,
  admission_rejected, provider_outcome_unknown, cancel_unconfirmed, Operation, fetch, reserve_row,
}
use devin_fusion_via_codex.Ledger.Binding.{ContinuationBinding, Codec, scope_of}
use devin_fusion_via_codex.Ledger.State.{
  Ledger, any_status, is_executing, is_unknown, is_unresolved,
}
use devin_fusion_via_codex.Ledger.Reserve.{
  Reservation, Reserved, admitted, reservation_or, admit_new, reserve,
}
use devin_fusion_via_codex.Ledger.Reserve.Admission.{
  is_rejected, Cleared, absent, rejected, reserve-Admission, reserve_new-Checked,
}
use devin_fusion_via_codex.Ledger.Steps.{Reach, here, next}
use devin_fusion_via_codex.Ledger.Steps.Changes.{
  Change, same, delivered, reserved, settled, committed, offered, acknowledged, began, retired,
}
use devin_fusion_via_codex.Ledger.Steps.Each.{Step-Change}
use devin_fusion_via_codex.Ledger.Lane.{
  unresolved_count, IsSingle, fetch-delete_row, unique-finish, unique-append, unique-delete_row,
  unique-keep_others, count-finish, count-append, count-delete_row, count-delete_row_same,
  count-keep_others, count_idle,
}

Cleared-fetch : (s o : String) (m n : Ledger) → Cleared s o m n → fetch s o n.operations ≡ none
Cleared-fetch s o m n (absent e) = e
Cleared-fetch s o m n (rejected row e h) =
    ground (arith, fetch-delete_row s o s o m.operations, eq_iff s s, eq_iff o o)

Cleared-IsSingle :
    (s o : String) (m n : Ledger) → Cleared s o m n → IsSingle m.operations → IsSingle n.operations
Cleared-IsSingle s o m n (absent e) h = h
Cleared-IsSingle s o m n (rejected row e k) h = record {
  unique = unique-delete_row s o m.operations h.unique;
  single = λ x. ground (arith, count-delete_row x s o m.operations, h.single x);
}

abbrev new_row : String → String → String → Operation
new_row s o fingerprint = record {
  scope = s;
  operation_id = o;
  fingerprint = fingerprint;
  status = executing;
  result = none;
}

reserve_row-IsSingle :
    (s o fingerprint : String) (rows : List Operation)
    → fetch s o rows ≡ none
    → any_status is_executing s rows ≡ false
    → any_status is_unknown s rows ≡ false
    → IsSingle rows
    → IsSingle (reserve_row s o fingerprint rows)
unfolding unresolved_count
reserve_row-IsSingle s o fingerprint rows e k l h = record {
  unique = unique-append (new_row s o fingerprint) rows e h.unique;
  single = λ x. ground (
    arith,
    count-append x rows (new_row s o fingerprint),
    h.single x,
    count_idle s rows k l,
    eq_iff s x,
  );
}

module _ (c : Codec) (P : String → Type 0) where
  Change-IsSingle : {m n : Ledger} → Change c P m n → IsSingle m.operations → IsSingle n.operations
  Change-IsSingle {m} {n} same h = h
  Change-IsSingle {m} {n} (delivered ds) h = h
  Change-IsSingle {m} {n} (reserved s o fingerprint base ts bs k idle known e) h =
      reserve_row-IsSingle s o fingerprint base.operations (Cleared-fetch s o m base k) idle known
        (Cleared-IsSingle s o m base k h)
  Change-IsSingle {m} {n} (settled s o status result u) h = record {
    unique = unique-finish s o status result m.operations ∙ h.unique;
    single =
        λ x. ground (arith, count-finish x s o status result m.operations h.unique u, h.single x);
  }
  Change-IsSingle {m} {n} (committed s o t result u e k clash) h = record {
    unique = unique-finish s o succeeded result m.operations ∙ h.unique;
    single = λ x.
        ground (arith, count-finish x s o succeeded result m.operations h.unique u, h.single x);
  }
  Change-IsSingle {m} {n} (offered s o ds) h = h
  Change-IsSingle {m} {n} (acknowledged s o revision digest reference ds e) h = h
  Change-IsSingle {m} {n} (began nonce from to b carry_from carried head ts e k) h = h
  Change-IsSingle {m} {n} (retired s p pending unresolved) h = record {
    unique = unique-keep_others s m.operations h.unique;
    single = λ x. ground (arith, count-keep_others x s m.operations, h.single x);
  }

  -- From a ledger in which this holds, after any calls, no two rows of operations have one key, and
  -- of each scope one operation at most is being executed or of unknown outcome.
  pub Reach-IsSingle :
      {m n : Ledger} → IsSingle m.operations → Reach c P m n → IsSingle n.operations
  Reach-IsSingle h here = h
  Reach-IsSingle h (next {n} {o} r step) =
      Change-IsSingle (Step-Change c P step) (Reach-IsSingle h r)

rejected_resolved : (x : Status) → is_rejected x ≡ true → is_unresolved x ≡ false
rejected_resolved preflight_rejected h = refl
rejected_resolved admission_rejected h = refl
rejected_resolved executing h = absurd (ground arith)
rejected_resolved succeeded h = refl
rejected_resolved failed h = refl
rejected_resolved cancelled h = refl
rejected_resolved outcome_unknown h = refl
rejected_resolved provider_outcome_unknown h = absurd (ground arith)
rejected_resolved cancel_unconfirmed h = absurd (ground arith)

count-Cleared :
    (x s o : String) (m n : Ledger)
    → Cleared s o m n
    → IsSingle m.operations
    → unresolved_count x n.operations ≡ unresolved_count x m.operations
count-Cleared x s o m n (absent e) h = refl
count-Cleared x s o m n (rejected row e k) h =
    count-delete_row_same x s o m.operations row h.unique e (rejected_resolved row.status k)

module _ (c : Codec) (b : ContinuationBinding) (o : String) (body : Object) (m n : Ledger)
    (r : Reservation) where
  -- The reservation is of the binding's scope.
  pub admitted_scope : reserve c b o body m ≡ ok (admitted r, n) → scope_of c b ≡ ok r.scope
  unfolding admit_new
  admitted_scope k =
      let a = reserve-Admission c b o body m r n k in
      let d = reserve_new-Checked c b a.scope o body a.history a.base (admitted r) n a.fresh in
      a.scoped ∙ ap ok (sym (ap (λ (x : Reserved × Ledger). (reservation_or r x.0).scope) d.result))

  -- In a ledger whose scopes have one unresolved operation at most and whose keys are unique, where
  -- `reserve` admits an operation, no operation of its scope was unresolved, and one is now.
  pub reserve_alone :
      IsSingle m.operations
      → reserve c b o body m ≡ ok (admitted r, n)
      → (unresolved_count r.scope m.operations ≡ 0) × (unresolved_count r.scope n.operations ≡ 1)
  unfolding admit_new unresolved_count
  reserve_alone h k =
      let a = reserve-Admission c b o body m r n k in
      let d = reserve_new-Checked c b a.scope o body a.history a.base (admitted r) n a.fresh in
      let same_scope : r.scope ≡ a.scope =
        ap (λ (x : Reserved × Ledger). (reservation_or r x.0).scope) d.result in
      let idle = count_idle a.scope a.base.operations d.idle d.known in
      let before = sym (count-Cleared a.scope a.scope o m a.base a.cleared h) ∙ idle in
      let row = new_row a.scope o (c.body_digest body) in
      let after : unresolved_count a.scope n.operations ≡ 1 =
        ap (λ (x : Reserved × Ledger). unresolved_count a.scope x.1.operations) d.result
        ∙ count-append a.scope a.base.operations row
        ∙ ground (arith, idle, eq_iff a.scope a.scope) in
      rw same_scope (before, after)
