-- ===== src/Usage.antt =====
-- fusion_relay/usage.py: the token counts of responses, merged by response and summed up. The SHA-256
-- reference of a role and an identity is a parameter.
pub mod Once
pub mod Roles
mod Tests
use devin_fusion_via_codex.Common.{
  ℕ, suc, ◌+◌, ◌-◌, Bool, true, false, not, ◌&&◌, ◌||◌, Option, none, some, List, [], ◌∷◌, ◌++◌,
  length, String, str_eq, ltb, ◌==◌, if◌then◌else◌,
}

-- A member of a report: a whole number from 0 on, or anything else, also where it is missing.
pub data Value : Type 0 where
  number : ℕ → Value
  other : Value

-- `usage` of a response; a detail is `other` where its details are no dict.
pub record UsageReport : Type 0 where
  pub input_tokens : Value
  pub output_tokens : Value
  pub cached_tokens : Value
  pub reasoning_tokens : Value

pub data Field : Type 0 where
  input_tokens output_tokens cached_tokens reasoning_tokens : Field

pub record Counts : Type 0 where
  pub input_tokens : Option ℕ
  pub output_tokens : Option ℕ
  pub cached_tokens : Option ℕ
  pub reasoning_tokens : Option ℕ

pub data Role : Type 0 where
  lead sidekick unverified : Role

pub data Status : Type 0 where
  completed incomplete failed cancelled unknown : Status

-- `dict(normalized_usage(…), response_ref=…, …)`
pub record Item : Type 0 where
  pub counts : Counts
  pub response_ref : String
  pub role : Role
  pub status : Status
  pub identified : Bool
  pub conflict : Bool

-- What the response names itself by, or the number of entries there were.
pub data Identity : Type 0 where
  named : String → Identity
  unidentified : ℕ → Identity

pub record Response : Type 0 where
  pub id : Option String
  pub status : Option String
  pub usage : UsageReport

token_count : Value → Option ℕ
token_count (number n) = some n
token_count other = none

unfoldable pub normalized_usage : UsageReport → Counts
unfolding token_count
normalized_usage r = record {
  input_tokens = token_count r.input_tokens;
  output_tokens = token_count r.output_tokens;
  cached_tokens = token_count r.cached_tokens;
  reasoning_tokens = token_count r.reasoning_tokens;
}

unfoldable pub count_of : Field → Counts → Option ℕ
count_of input_tokens c = c.input_tokens
count_of output_tokens c = c.output_tokens
count_of cached_tokens c = c.cached_tokens
count_of reasoning_tokens c = c.reasoning_tokens

abbrev pub add_known : Option ℕ → List ℕ → List ℕ
add_known none counts = counts
add_known (some n) counts = n ∷ counts

-- `[entry[key] for entry in entries if entry.get(key) is not None]`
unfoldable pub known_counts : Field → List Item → List ℕ
known_counts f [] = []
known_counts f (e ∷ es) = add_known (count_of f e.counts) (known_counts f es)

unfoldable pub sum : List ℕ → ℕ
sum [] = 0
sum (n ∷ ns) = n + sum ns

-- `sum(known) if known else None`
abbrev pub sum_known : List ℕ → Option ℕ
sum_known [] = none
sum_known (n ∷ ns) = some (sum (n ∷ ns))

unfoldable pub total : Field → List Item → Option ℕ
unfolding known_counts sum
total f es = sum_known (known_counts f es)

abbrev pub is_none : Option ℕ → Bool
is_none none = true
is_none (some n) = false

abbrev pub count_if : Bool → ℕ → ℕ
count_if true n = suc n
count_if false n = n

-- `len(entries) - len(known)`
unfoldable pub missing : Field → List Item → ℕ
unfolding known_counts
missing f es = length es - length (known_counts f es)

unfoldable pub unknown_calls : List Item → ℕ
unknown_calls [] = 0
unknown_calls (e ∷ es) =
    count_if (is_none e.counts.input_tokens || is_none e.counts.output_tokens) (unknown_calls es)

pub record Totals : Type 0 where
  pub totals : Field → Option ℕ
  pub missing_fields : Field → ℕ
  pub response_count : ℕ
  pub unknown_count : ℕ
  pub partial : Bool

unfoldable pub aggregate : List Item → Totals
aggregate es = record {
  totals = λ f. total f es;
  missing_fields = λ f. missing f es;
  response_count = length es;
  unknown_count = unknown_calls es;
  partial =
      ltb 0 (missing input_tokens es)
      || (ltb 0 (missing output_tokens es)
          || (ltb 0 (missing cached_tokens es) || ltb 0 (missing reasoning_tokens es)));
}

-- `role if role in ROLES else "unverified"`
unfoldable pub role_of : String → Role
role_of text =
    if str_eq text "lead" then lead else if str_eq text "sidekick" then sidekick else unverified

status_text : String → Status
status_text text =
    if str_eq text "completed"
    then completed
    else if str_eq text "incomplete"
    then incomplete
    else if str_eq text "failed"
    then failed
    else if str_eq text "cancelled"
    then cancelled
    else unknown

unfoldable pub status_of : Option String → Status
unfolding status_text
status_of none = unknown
status_of (some text) = status_text text

-- An identity is a text that is not empty.
unfoldable pub identity_of : Option String → ℕ → Identity
identity_of none n = unidentified n
identity_of (some text) n = if str_eq text "" then unidentified n else named text

abbrev pub is_named : Identity → Bool
is_named (named text) = true
is_named (unidentified n) = false

-- One field of an entry that is there already, and whether the two conflict.
abbrev pub fill : Option ℕ → Option ℕ → Option ℕ
fill none new = new
fill (some n) new = some n

abbrev pub differs : Option ℕ → Option ℕ → Bool
differs (some n) (some k) = not (n == k)
differs _ _ = false

abbrev pub merge_status : Status → Status → Status
merge_status unknown new = new
merge_status status new = status

unfoldable pub merge : Item → Item → Item
merge p i = record p {
  counts = record {
    input_tokens = fill p.counts.input_tokens i.counts.input_tokens;
    output_tokens = fill p.counts.output_tokens i.counts.output_tokens;
    cached_tokens = fill p.counts.cached_tokens i.counts.cached_tokens;
    reasoning_tokens = fill p.counts.reasoning_tokens i.counts.reasoning_tokens;
  };
  status = merge_status p.status i.status;
  conflict =
      p.conflict
      || (differs p.counts.input_tokens i.counts.input_tokens
          || (differs p.counts.output_tokens i.counts.output_tokens
              || (differs p.counts.cached_tokens i.counts.cached_tokens
                  || differs p.counts.reasoning_tokens i.counts.reasoning_tokens)));
}

-- The entry of the item's reference is merged with it, or it becomes a new one.
unfoldable pub record_item : Item → List Item → List Item
unfolding merge
record_item i [] = i ∷ []
record_item i (e ∷ es) =
    if str_eq e.response_ref i.response_ref then merge e i ∷ es else e ∷ record_item i es

module _ (reference : Role → Identity → String) where
  new_item : Role → Identity → Response → Item
  new_item role identity r = record {
    counts = normalized_usage r.usage;
    response_ref = reference role identity;
    role = role;
    status = status_of r.status;
    identified = is_named identity;
    conflict = false;
  }

  -- `record_usage`, as far as the entries go.
  unfoldable pub record_usage : Response → String → List Item → List Item
  unfolding new_item
  record_usage r role entries =
      record_item (new_item (role_of role) (identity_of r.id (length entries)) r) entries
