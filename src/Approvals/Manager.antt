-- ===== src/Approvals/Manager.antt =====
-- fusion_relay/approvals.py: the state of `ApprovalManager` and the helpers of its methods.
-- A Python dict is the list of its entries in the order of insertion.
use devin_fusion_via_codex.Common.{
  ℕ, ◌-◌, Bool, false, ◌&&◌, Option, none, some, List, [], ◌∷◌, ◌++◌, length, drop, String, str_eq,
  leb, ◌==◌, if◌then◌else◌,
}
use devin_fusion_via_codex.Approvals.Ticket.{ApprovalScope, ApprovalTicket, task_grant_ttl}

-- The texts that are written into a ticket's `status` while it is in the table, and `revoked`,
-- which `wait` looks for.
pub data Status : Type 0 where
  pending allowed_once allowed_task revoked : Status

pub record Entry : Type 0 where
  pub ticket : ApprovalTicket
  pub status : Status

-- A task grant under its key.
pub record Grant : Type 0 where
  pub principal : String
  pub session : String
  pub app : String
  pub capability : String
  pub binding_revision : ℕ
  pub created_at : ℕ

pub record Counter : Type 0 where
  pub session : String
  pub app : String
  pub value : ℕ

pub record Manager : Type 0 where
  pub max_pending : ℕ
  pub tickets : List Entry
  pub grants : List Grant
  pub revisions : List Counter
  pub history : List String
  pub closed : Bool

-- `_Grant.fresh`
abbrev pub is_fresh : ℕ → Grant → Bool
is_fresh now g = leb (now - g.created_at) task_grant_ttl

abbrev pub counter_of : String → String → List Counter → Option ℕ
counter_of session app [] = none
counter_of session app (c ∷ cs) =
    if str_eq c.session session && str_eq c.app app then some c.value else counter_of session app cs

abbrev pub get_or : ℕ → Option ℕ → ℕ
get_or default none = default
get_or default (some n) = n

-- `_revision`
unfoldable pub revision : String → String → List Counter → ℕ
revision session app counters = get_or 1 (counter_of session app counters)

-- `self._revisions[k] = value`
unfoldable pub set_counter : String → String → ℕ → List Counter → List Counter
set_counter session app value [] = record { session = session; app = app; value = value } ∷ []
set_counter session app value (c ∷ cs) =
    if str_eq c.session session && str_eq c.app app
    then record c { value = value } ∷ cs
    else c ∷ set_counter session app value cs

-- `self._revisions.setdefault(k, 1)`
unfoldable pub default_counter : String → String → List Counter → List Counter
default_counter session app cs = elim (counter_of session app cs) [
  | some value ↦ cs
  | none ↦ cs ++ record { session = session; app = app; value = 1 } ∷ []
]

abbrev pub has_id : String → Entry → Bool
has_id id e = str_eq e.ticket.request_id id

-- `self._tickets.get(request_id)`
unfoldable pub entry_of : String → List Entry → Option Entry
entry_of id [] = none
entry_of id (e ∷ es) = if has_id id e then some e else entry_of id es

-- `del self._tickets[request_id]`
unfoldable pub without : String → List Entry → List Entry
without id [] = []
without id (e ∷ es) = let rest = without id es in if has_id id e then rest else e ∷ rest

-- A deque of 256: the oldest goes when one more is appended.
unfoldable pub push_history : String → List String → List String
push_history id history = drop (length (history ++ id ∷ []) - 256) (history ++ id ∷ [])

-- `_terminal`
unfoldable pub terminal : String → Manager → Manager
unfolding push_history
terminal id m = elim (entry_of id m.tickets) [
  | none ↦ m
  | some e ↦ record m { tickets = without id m.tickets; history = push_history id m.history }
]

abbrev pub has_grant_key : ApprovalScope → Grant → Bool
has_grant_key s g =
    str_eq g.principal s.principal
    && (str_eq g.session s.session
        && (str_eq g.app s.app
            && (str_eq g.capability s.capability && (g.binding_revision == s.binding_revision))))

unfoldable pub grant_of : ApprovalScope → List Grant → Option Grant
grant_of s [] = none
grant_of s (g ∷ gs) = if has_grant_key s g then some g else grant_of s gs

-- `_live_grant(scope) is not None`
unfoldable pub has_live_grant : ApprovalScope → ℕ → List Grant → Bool
unfolding grant_of
has_live_grant s now gs = elim (grant_of s gs) [ none ↦ false | some g ↦ is_fresh now g ]

-- `self._grants[self._grant_key(scope)] = _Grant(created_at=now)`
unfoldable pub put_grant : ApprovalScope → ℕ → List Grant → List Grant
put_grant s now [] =
    record {
      principal = s.principal;
      session = s.session;
      app = s.app;
      capability = s.capability;
      binding_revision = s.binding_revision;
      created_at = now;
    }
    ∷ []
put_grant s now (g ∷ gs) =
    if has_grant_key s g then record g { created_at = now } ∷ gs else g ∷ put_grant s now gs

-- The first loop of `_prune_locked`, over a copy of the table.
unfoldable pub prune_tickets : ℕ → List Entry → Manager → Manager
prune_tickets now [] m = m
prune_tickets now (e ∷ es) m =
    prune_tickets now es (if leb e.ticket.expires_at now then terminal e.ticket.request_id m else m)

unfoldable pub prune_grants : ℕ → List Grant → List Grant
prune_grants now [] = []
prune_grants now (g ∷ gs) =
    let rest = prune_grants now gs in if is_fresh now g then g ∷ rest else rest

-- `_prune_locked`
unfoldable pub prune : ℕ → Manager → Manager
unfolding prune_tickets prune_grants
prune now m =
    let m' = prune_tickets now m.tickets m in record m' { grants = prune_grants now m'.grants }
