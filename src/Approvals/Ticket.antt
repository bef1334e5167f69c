-- ===== src/Approvals/Ticket.antt =====
-- fusion_relay/approvals.py: the scopes, tickets and grants of `ApprovalManager`.
-- Times are whole milliseconds of the monotonic clock.
use native.Mathlib.Decide.{ℕ_discrete}
use mathlib.Core.Bool.{decide}
use Prim.Native.String.{count}
use devin_fusion_via_codex.Common.{
  is_sha256_hex, ℕ, Bool, true, false, not, ◌&&◌, ◌||◌, List, [], ◌∷◌, String, string_discrete,
  codes, str_eq, ltb, leb, ◌==◌, if◌then◌else◌, Result, raise_if, ◌>>◌,
}

pub record ApprovalScope : Type 0 where
  pub principal : String
  pub session : String
  pub operation_id : String
  pub app : String
  pub capability : String
  pub binding_revision : ℕ
  pub action_digest : String

pub data Decision : Type 0 where
  allow_once allow_task deny : Decision

pub record ApprovalTicket : Type 0 where
  pub request_id : String
  pub scope : ApprovalScope
  pub task : String
  pub action_summary : String
  pub expires_at : ℕ
  pub revision : ℕ
  pub allowed_decisions : List Decision

pub decision-discrete : Discrete Decision
decision-discrete = hlevel

unfoldable pub ticket-discrete : Discrete ApprovalTicket
unfolding string_discrete ℕ_discrete
ticket-discrete = hlevel (string_discrete, ℕ_discrete)

-- `state["ticket"] != ticket`: frozen dataclasses are equal field by field.
abbrev pub same_ticket : ApprovalTicket → ApprovalTicket → Bool
same_ticket a b = decide (ticket-discrete a b)

abbrev pub max_ttl : ℕ
max_ttl = 120000

abbrev pub min_ttl : ℕ
min_ttl = 1000

abbrev pub task_grant_ttl : ℕ
task_grant_ttl = 300000

-- A character of a bundle identifier's part, `[A-Za-z0-9-]`.
is_app_char : ℕ → Bool
is_app_char c =
    (leb b'A' c && leb c b'Z')
    || ((leb b'a' c && leb c b'z') || ((leb b'0' c && leb c b'9') || (c == b'-')))

-- `_APP_RE.fullmatch`: two parts or more with dots between; the arguments say whether the part at
-- hand has a character and whether a dot stood before it.
app_from : Bool → Bool → List ℕ → Bool
unfolding is_app_char
app_from begun dotted [] = begun && dotted
app_from begun dotted (c ∷ cs) =
    let in_part = app_from true dotted cs in
    let next_part = app_from false true cs in
    if is_app_char c then in_part else if (c == b'.') && begun then next_part else false

unfoldable pub is_app : String → Bool
unfolding app_from
is_app app = app_from false false (codes app)

-- `_DIGEST_RE.fullmatch`
unfoldable pub is_digest : String → Bool
unfolding is_sha256_hex
is_digest text = is_sha256_hex text

-- `not v or len(v) > limit`
abbrev pub unbounded : ℕ → String → Bool
unbounded limit text = str_eq text "" || ltb limit (count text)

pub data ApprovalError : Type 0 where
  invalid_scope invalid_decisions invalid_task invalid_summary : ApprovalError
  manager_closed capacity_reached ticket_invalid ticket_not_approved ticket_expired : ApprovalError
  ticket_stale grant_gone ticket_cancelled ticket_revoked scope_revoked : ApprovalError

-- `_check_scope`; each of its messages is a `ValueError` about the scope.
unfoldable pub check_scope : ApprovalScope → Result ApprovalError (Unit {0})
check_scope s = do
  raise_if (unbounded 512 s.principal) invalid_scope
  raise_if (unbounded 512 s.session) invalid_scope
  raise_if (unbounded 512 s.operation_id) invalid_scope
  raise_if (unbounded 255 s.app) invalid_scope
  raise_if (unbounded 512 s.capability) invalid_scope
  raise_if (unbounded 64 s.action_digest) invalid_scope
  raise_if (not (is_app s.app)) invalid_scope
  raise_if (not (str_eq s.capability "observe" || str_eq s.capability "act")) invalid_scope
  raise_if (s.binding_revision == 0) invalid_scope
  raise_if (not (is_digest s.action_digest)) invalid_scope
