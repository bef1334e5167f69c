-- ===== src/Approvals/Revoked.antt =====
-- fusion_relay/approvals.py: a ticket that was revoked or consumed never passes again.
use devin_fusion_via_codex.Common.{
  suc, ℕ, ◌<◌, ◌≡◌, ◌≢◌, Bool, true, Option, String, ok, err, arith,
}
use devin_fusion_via_codex.Approvals.Ticket.{ApprovalTicket, scope_revoked}
use devin_fusion_via_codex.Approvals.Manager.{Manager, revision}
use devin_fusion_via_codex.Approvals.Operations.{Asked, request}
use devin_fusion_via_codex.Approvals.Passing.{authorize}
use devin_fusion_via_codex.Approvals.Revoke.{revoke, covers, targets, check_revision}
use devin_fusion_via_codex.Approvals.Keeps.{prune-Keeps}
use devin_fusion_via_codex.Approvals.Revisions.{
  level, level-bump_target, revision-above, targets-covers,
}
use devin_fusion_via_codex.Approvals.Steps.{
  Reach, Reach-level, Reach-absent, request-level_same, revoke-level,
}
use devin_fusion_via_codex.Approvals.Authorized.{authorize-iff-Approved, authorize-consumed}

revoked-above :
    {P Q : String → Type 0} (session : String) (app : Option String) (t : ApprovalTicket)
    (m n o : Manager)
    → level t.scope.session t.scope.app m.revisions ≡ suc t.revision
    → Reach P m n
    → covers session app t.scope.session t.scope.app ≡ true
    → Reach Q (revoke session app n) o
    → t.revision < revision t.scope.session t.scope.app o.revisions
revoked-above session app t m n o l r c q =
    let s = t.scope.session in
    let a = t.scope.app in
    revision-above s a o.revisions t.revision (
      ground (
        arith,
        Reach-level s a r,
        Reach-level s a q,
        revoke-level session app n s a,
        level-bump_target s a (targets session app n) n.revisions,
        targets-covers session app s a n c,
      ))

stale-never-Approved :
    (t : ApprovalTicket) (consume : Bool) (t1 t2 t3 : ℕ) (m : Manager)
    → t.revision < revision t.scope.session t.scope.app m.revisions
    → (authorize t consume t1 t2 t3 m).0 ≢ ok tt
stale-never-Approved t c t1 t2 t3 m l e =
    let current = ((authorize-iff-Approved t c t1 t2 t3 m).0 e).current in
    absurd (ground (arith, (prune-Keeps t1 m).counters))

-- A ticket that `request` gave out is of no use after a revocation that covers its session and app,
-- whatever calls come before and after it: `check_revision` raises and `authorize` does not pass.
pub revoke_is_final :
    {P Q : String → Type 0} (a : Asked) (id : String) (t1 t2 t3 : ℕ) (m n o : Manager)
    (t : ApprovalTicket) (session : String) (app : Option String) (consume : Bool) (u1 u2 u3 : ℕ)
    → (request a id t1 t2 t3 m).0 ≡ ok t
    → Reach P (request a id t1 t2 t3 m).1 n
    → covers session app t.scope.session t.scope.app ≡ true
    → Reach Q (revoke session app n) o
    → (check_revision t o ≡ err scope_revoked) × ((authorize t consume u1 u2 u3 o).0 ≢ ok tt)
unfolding check_revision
revoke_is_final a id t1 t2 t3 m n o t session app consume u1 u2 u3 h r c q =
    let above = revoked-above session app t _ n o (request-level_same a id t1 t2 t3 m t h) r c q in
    (ground arith, stale-never-Approved t consume u1 u2 u3 o above)

-- A ticket that a consuming `authorize` let pass never passes again, whatever calls follow, as
-- long as no later request draws the id of the ticket.
pub consume_is_final :
    (t : ApprovalTicket) (t1 t2 t3 : ℕ) (m n : Manager) (consume : Bool) (u1 u2 u3 : ℕ)
    → (authorize t true t1 t2 t3 m).0 ≡ ok tt
    → Reach (λ id. id ≢ t.request_id) (authorize t true t1 t2 t3 m).1 n
    → (authorize t consume u1 u2 u3 n).0 ≢ ok tt
consume_is_final t t1 t2 t3 m n consume u1 u2 u3 h r e =
    let gone =
      (prune-Keeps u1 n).absent t.request_id (Reach-absent r (authorize-consumed t t1 t2 t3 m h)) in
    let listed = ((authorize-iff-Approved t consume u1 u2 u3 n).0 e).listed in absurd (ground arith)
