-- ===== src/Ledger/Reserve/Unchanged.antt =====
-- fusion_relay/continuation.py: a call of `reserve` that replays a result.
use devin_fusion_via_codex.Common.{
  ◌≡◌, refl, eq_iff, ap, true, false, Bool-cases, inl, inr, Option, none, some, List, String,
  str_eq, ltb, ok, raise_if, bind-ok, ok-second, arith,
}
use devin_fusion_via_codex.Common.Json.{Json, Object}
use devin_fusion_via_codex.Journal.Rows.{
  Status, executing, succeeded, failed, cancelled, outcome_unknown, preflight_rejected,
  admission_rejected, provider_outcome_unknown, cancel_unconfirmed, Operation, fetch,
}
use devin_fusion_via_codex.Ledger.Binding.{
  ContinuationBinding, Codec, scope_of, unbounded, max_bytes, identity_required, invalid_body,
}
use devin_fusion_via_codex.Ledger.State.{Ledger}
use devin_fusion_via_codex.Ledger.Reserve.{
  Replay, Reserved, replayed, history_of, reserve, reserve_found, reserve_again, reserve_new,
  admit_new, replay,
}
use devin_fusion_via_codex.Ledger.Reserve.Admission.{is_replay, reserve_new-Checked}

module _ (c : Codec) where
  reserve_new-admits :
      (b : ContinuationBinding) (scope o : String) (body : Object) (hs : List Json) (m : Ledger)
      (p : Replay) (n : Ledger)
      → reserve_new c b scope o body hs m ≡ ok (replayed p, n)
      → true ≡ false
  unfolding admit_new
  reserve_new-admits b s o body hs m p n h =
      ap (λ (x : Reserved × Ledger). is_replay c x.0)
        (reserve_new-Checked c b s o body hs m (replayed p) n h).result

  reserve_again_same :
      (b : ContinuationBinding) (scope o : String) (body : Object) (hs : List Json)
      (row : Operation) (s : Status) (m : Ledger) (p : Replay) (n : Ledger)
      → reserve_again c b scope o body hs row s m ≡ ok (replayed p, n)
      → (s ≡ succeeded) × (n ≡ m)
  unfolding reserve_again
  reserve_again_same b scope o body hs row preflight_rejected m p n h =
      absurd (ground (arith, reserve_new-admits b scope o body hs _ p n h))
  reserve_again_same b scope o body hs row admission_rejected m p n h =
      absurd (ground (arith, reserve_new-admits b scope o body hs _ p n h))
  reserve_again_same b scope o body hs row succeeded m p n h =
      let (x, e, h1) = bind-ok (replay c scope o row.result) _ h in (refl, ok-second h1)
  reserve_again_same b scope o body hs row provider_outcome_unknown m p n h = absurd (ground arith)
  reserve_again_same b scope o body hs row cancel_unconfirmed m p n h = absurd (ground arith)
  reserve_again_same b scope o body hs row executing m p n h = absurd (ground arith)
  reserve_again_same b scope o body hs row failed m p n h = absurd (ground arith)
  reserve_again_same b scope o body hs row cancelled m p n h = absurd (ground arith)
  reserve_again_same b scope o body hs row outcome_unknown m p n h = absurd (ground arith)

  reserve_found_same :
      (b : ContinuationBinding) (scope o : String) (body : Object) (hs : List Json)
      (found : Option Operation) (m : Ledger) (p : Replay) (n : Ledger)
      → reserve_found c b scope o body hs found m ≡ ok (replayed p, n)
      → (row : Operation) × (found ≡ some row)
        × (row.status ≡ succeeded)
        × (row.fingerprint ≡ c.body_digest body)
        × (n ≡ m)
  unfolding reserve_found
  reserve_found_same b scope o body hs none m p n h =
      absurd (ground (arith, reserve_new-admits b scope o body hs m p n h))
  reserve_found_same b scope o body hs (some row) m p n h =
      elim (Bool-cases (str_eq row.fingerprint (c.body_digest body))) [
        | inl same ↦
            let (ended, kept) =
              reserve_again_same b scope o body hs row row.status m p n (ground arith) in
            (row, refl, ended, ground (arith, eq_iff row.fingerprint (c.body_digest body)), kept)
        | inr other ↦ absurd (ground arith)
      ]

  -- The operation has succeeded with the same body, and nothing changes.
  pub record Replays (b : ContinuationBinding) (o : String) (body : Object) (m n : Ledger)
      : Type 0 where
    pub scope : String
    pub row : Operation
    pub scoped : scope_of c b ≡ ok scope
    pub found : fetch scope o m.operations ≡ some row
    pub ended : row.status ≡ succeeded
    pub same_body : row.fingerprint ≡ c.body_digest body
    pub unchanged : n ≡ m

  pub reserve-Replays :
      (b : ContinuationBinding) (o : String) (body : Object) (m : Ledger) (p : Replay) (n : Ledger)
      → reserve c b o body m ≡ ok (replayed p, n)
      → Replays b o body m n
  unfolding reserve
  reserve-Replays b o body m p n h =
      let (scope, scoped, h1) = bind-ok (scope_of c b) _ h in
      let (u, e2, h2) = bind-ok (raise_if (unbounded o) identity_required) _ h1 in
      let (v, e3, h3) = bind-ok (raise_if (ltb max_bytes (c.body_size body)) invalid_body) _ h2 in
      let (hs, read, h4) = bind-ok (history_of body) _ h3 in
      let (row, found, ended, same_body, kept) =
        reserve_found_same b scope o body hs (fetch scope o m.operations) m p n h4 in
      record {
        scope = scope;
        row = row;
        scoped = scoped;
        found = found;
        ended = ended;
        same_body = same_body;
        unchanged = kept;
      }

  -- A replay changes nothing.
  pub reserve_same :
      (b : ContinuationBinding) (o : String) (body : Object) (m : Ledger) (p : Replay) (n : Ledger)
      → reserve c b o body m ≡ ok (replayed p, n)
      → n ≡ m
  reserve_same b o body m p n h = (reserve-Replays b o body m p n h).unchanged
