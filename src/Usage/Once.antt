-- ===== src/Usage/Once.antt =====
-- fusion_relay/usage.py: a response that is reported again is not counted again.
use devin_fusion_via_codex.Common.{
  ℕ, ◌≡◌, ◌∙◌, refl, sym, ap, Bool, true, false, ◌||◌, Bool-cases, inl, inr, Option, none, some,
  List, [], ◌∷◌, String, str_eq, eq_refl, ==_refl, if_true, if_false, arith,
}
use devin_fusion_via_codex.Usage.{
  Item, Role, Status, completed, incomplete, failed, cancelled, unknown, Response, Identity, fill,
  differs, merge_status, merge, record_item, record_usage, identity_of, named, role_of, new_item,
}

fill_again : (p i : Option ℕ) → fill (fill p i) i ≡ fill p i
fill_again none none = refl
fill_again none (some n) = refl
fill_again (some n) i = refl

fill_same : (i : Option ℕ) → fill i i ≡ i
fill_same none = refl
fill_same (some n) = refl

differs_same : (i : Option ℕ) → differs i i ≡ false
differs_same none = refl
differs_same (some n) = ground (arith, ==_refl n)

differs_again : (p i : Option ℕ) → differs (fill p i) i ≡ differs p i
differs_again none none = refl
differs_again none (some n) = differs_same (some n)
differs_again (some n) i = refl

status_again : (s t : Status) → merge_status (merge_status s t) t ≡ merge_status s t
status_again completed t = refl
status_again incomplete t = refl
status_again failed t = refl
status_again cancelled t = refl
status_again unknown completed = refl
status_again unknown incomplete = refl
status_again unknown failed = refl
status_again unknown cancelled = refl
status_again unknown unknown = refl

status_same : (s : Status) → merge_status s s ≡ s
status_same completed = refl
status_same incomplete = refl
status_same failed = refl
status_same cancelled = refl
status_same unknown = refl

or_again : (c d : Bool) → (c || d) || d ≡ c || d
or_again true d = refl
or_again false true = refl
or_again false false = refl

or_false : (c : Bool) → c || false ≡ c
or_false true = refl
or_false false = refl

merge_again : (p i : Item) → merge (merge p i) i ≡ merge p i
unfolding merge
merge_again p i = simp (fill_again, differs_again, status_again, or_again)

merge_same : (i : Item) → merge i i ≡ i
unfolding merge
merge_same i = simp (fill_same, differs_same, status_same, or_false)

record_item_again :
    (i : Item) (es : List Item) → record_item i (record_item i es) ≡ record_item i es
unfolding record_item merge
record_item_again i [] = if_true _ _ (eq_refl i.response_ref) ∙ ap (λ x. x ∷ []) (merge_same i)
record_item_again i (e ∷ es) = elim (Bool-cases (str_eq e.response_ref i.response_ref)) [
  | inl b ↦
      ap (record_item i) (if_true _ _ b)
      ∙ if_true _ _ b
      ∙ ap (λ x. x ∷ es) (merge_again e i)
      ∙ sym (if_true _ _ b)
  | inr b ↦
      ap (record_item i) (if_false _ _ b)
      ∙ if_false _ _ b
      ∙ ap (λ x. e ∷ x) (record_item_again i es)
      ∙ sym (if_false _ _ b)
]

new_item-named :
    (reference : Role → Identity → String) (r : Response) (role text : String)
    → r.id ≡ some text
    → str_eq text "" ≡ false
    → (n : ℕ)
    → new_item reference (role_of role) (identity_of r.id n) r
      ≡ new_item reference (role_of role) (named text) r
unfolding identity_of
new_item-named reference r role text e b n =
    ap (λ o. new_item reference (role_of role) (identity_of o n) r) e
    ∙ ap (λ x. new_item reference (role_of role) x r) (if_false _ _ b)

-- A response that names itself changes the entries no more when it is recorded again under the same
-- role: no count of it is added twice, and no conflict or status is added.
pub record_again :
    (reference : Role → Identity → String) (r : Response) (role text : String) (entries : List Item)
    → r.id ≡ some text
    → str_eq text "" ≡ false
    → record_usage reference r role (record_usage reference r role entries)
      ≡ record_usage reference r role entries
unfolding record_usage
record_again reference r role text entries e b =
    let i = new_item reference (role_of role) (named text) r in
    let same = new_item-named reference r role text e b in
    ap (λ x. record_item x (record_usage reference r role entries)) (same _)
    ∙ ap (λ x. record_item i (record_item x entries)) (same _)
    ∙ record_item_again i entries
    ∙ ap (λ x. record_item x entries) (sym (same _))
