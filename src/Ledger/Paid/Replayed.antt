-- ===== src/Ledger/Paid/Replayed.antt =====
-- fusion_relay/continuation.py: `reserve` after the commit of the same operation.
use devin_fusion_via_codex.Common.{
  ℕ, ◌+◌, ◌≡◌, refl, sym, ap, ◌∙◌, ◌≢◌, false, not, Option, some, List, String, str_eq, eq_iff, ltb,
  if_false, ok, arith,
}
use devin_fusion_via_codex.Common.Json.{Json, Object}
use devin_fusion_via_codex.Journal.Rows.{Status, succeeded, Operation, fetch}
use devin_fusion_via_codex.Ledger.Binding.{
  ContinuationBinding, Codec, Payload, unseal, scope_of, unbounded, max_bytes,
}
use devin_fusion_via_codex.Ledger.State.{Ledger}
use devin_fusion_via_codex.Ledger.Reserve.{
  Reservation, Reserved, admitted, replayed, reservation_or, admit_new, history_of, replay,
  replay_of, reserve_again, reserve_found, reserve,
}
use devin_fusion_via_codex.Ledger.Reserve.Admission.{reserve-Admission, reserve_new-Checked}
use devin_fusion_via_codex.Ledger.Commit.{commit}
use devin_fusion_via_codex.Ledger.Steps.{Reach}
use devin_fusion_via_codex.Ledger.Paid.{Reach-Succeeded, commit-Stored}

abbrev pub replay_with : String → String → ℕ → String → Reserved
replay_with s o revision wire =
    replayed (record { scope = s; operation_id = o; revision = revision; wire = wire })

-- What was sealed under a scope and an operation is read back under them.
unfoldable pub ReadsBack : Codec → String → String → String → Payload → Type 0
ReadsBack c nonce s o p = c.decrypt s o (c.encrypt nonce s o p) ≡ some p

module _ (c : Codec) (nonce : String) (b : ContinuationBinding) where
  replay_stored :
      (s o : String) (sealed : Option String) (wire : String) (revision : ℕ)
      → ReadsBack c nonce s o (Payload.committed wire revision)
      → sealed ≡ some (c.encrypt nonce s o (Payload.committed wire revision))
      → replay c s o sealed ≡ ok (replay_with s o revision wire)
  unfolding replay unseal replay_of ReadsBack
  replay_stored s o sealed wire revision opens e = rw (e, replay, unseal, opens, replay_of) refl

  again_stored :
      (s o : String) (body : Object) (hs : List Json) (row : Operation) (status : Status)
      (wire : String) (revision : ℕ) (m : Ledger)
      → ReadsBack c nonce s o (Payload.committed wire revision)
      → status ≡ succeeded
      → row.result ≡ some (c.encrypt nonce s o (Payload.committed wire revision))
      → reserve_again c b s o body hs row status m ≡ ok (replay_with s o revision wire, m)
  unfolding reserve_again
  again_stored s o body hs row status wire revision m opens e f =
      rw (e, replay_stored s o row.result wire revision opens f) refl

  found_stored :
      (s o : String) (body : Object) (hs : List Json) (row : Operation) (wire : String)
      (revision : ℕ) (m : Ledger)
      → ReadsBack c nonce s o (Payload.committed wire revision)
      → row.fingerprint ≡ c.body_digest body
      → row.status ≡ succeeded
      → row.result ≡ some (c.encrypt nonce s o (Payload.committed wire revision))
      → reserve_found c b s o body hs (some row) m ≡ ok (replay_with s o revision wire, m)
  unfolding reserve_found
  found_stored s o body hs row wire revision m opens k e f =
      if_false {b = not (str_eq row.fingerprint (c.body_digest body))} _ _
        (ground (arith, eq_iff row.fingerprint (c.body_digest body)))
      ∙ again_stored s o body hs row row.status wire revision m opens e f

  reserve_finds :
      (s o : String) (body : Object) (hs : List Json) (z : Ledger) (found : Option Operation)
      → scope_of c b ≡ ok s
      → unbounded o ≡ false
      → ltb max_bytes (c.body_size body) ≡ false
      → history_of body ≡ ok hs
      → fetch s o z.operations ≡ found
      → reserve c b o body z ≡ reserve_found c b s o body hs found z
  unfolding reserve
  reserve_finds s o body hs z found e1 e2 e3 e4 e5 = rw (e1, e2, e3, e4, e5) refl

  record Reserves (o : String) (body : Object) (r : Reservation) : Type 0 where
    pub history : List Json
    pub scoped : scope_of c b ≡ ok r.scope
    pub named : unbounded o ≡ false
    pub sized : ltb max_bytes (c.body_size body) ≡ false
    pub read : history_of body ≡ ok history
    pub operation_same : r.operation_id ≡ o
    pub body_same : r.native_body ≡ body

  reserve-Reserves :
      (o : String) (body : Object) (m n : Ledger) (r : Reservation)
      → reserve c b o body m ≡ ok (admitted r, n)
      → Reserves o body r
  unfolding admit_new
  reserve-Reserves o body m n r h =
      let a = reserve-Admission c b o body m r n h in
      let d =
        ap (λ (x : Reserved × Ledger). reservation_or r x.0)
          (reserve_new-Checked c b a.scope o body a.history a.base (admitted r) n a.fresh).result in
      record {
        history = a.history;
        scoped = a.scoped ∙ ap ok (sym (ap (λ (x : Reservation). x.scope) d));
        named = a.named;
        sized = a.sized;
        read = a.read;
        operation_same = ap (λ (x : Reservation). x.operation_id) d;
        body_same = ap (λ (x : Reservation). x.native_body) d;
      }

  -- Where `reserve` admitted an operation, whatever was done in between, and `commit` succeeded, then
  -- after any calls that do not retire the scope, the same `reserve` changes nothing and replays the
  -- wire that was committed, if the result that was sealed is read back.
  pub commit_is_replayed :
      (o : String) (body : Object) (m n p q z : Ledger) (r : Reservation) (nonce1 wire : String)
      (output : List Json) (u : Unit {0})
      → ReadsBack c nonce r.scope o (Payload.committed wire (r.revision + 1))
      → reserve c b o body m ≡ ok (admitted r, n)
      → commit c nonce1 nonce r output wire p ≡ ok (u, q)
      → Reach c (λ s. s ≢ r.scope) q z
      → reserve c b o body z ≡ ok (replay_with r.scope o (r.revision + 1) wire, z)
  commit_is_replayed o body m n p q z r nonce1 wire output u opens h k reach =
      let a = reserve-Reserves o body m n r h in
      let d = commit-Stored c nonce1 nonce r output wire p q u k in
      let last = Reach-Succeeded r.scope r.operation_id d.row c d.succeeded reach in
      reserve_finds r.scope o body a.history z (some d.row) a.scoped a.named a.sized a.read
        (ap (λ o. fetch r.scope o z.operations) (sym a.operation_same) ∙ last.found)
      ∙ found_stored r.scope o body a.history d.row wire (r.revision + 1) z opens
          (d.fingerprint_same ∙ ap c.body_digest a.body_same) last.status
          (d.result_same
            ∙ ap (λ o. some (c.encrypt nonce r.scope o (Payload.committed wire (r.revision + 1))))
                a.operation_same)
