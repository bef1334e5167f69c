-- ===== src/Journal/Run/Once.antt =====
-- At most one execution for each operation of fusion_relay/operations.py, over all interleavings of
-- runs and over crashes. A run is cut where other threads may come in between: the transaction, the
-- call of the callable, and the recording of its end.
use devin_fusion_via_codex.Common.{
  ℕ, ◌+◌, ◌≤◌, ◌≡◌, Bool, true, false, Option, none, some, List, [], ◌∷◌, ◌++◌, String, eq_iff,
  if◌then◌else◌, Result, arith, refl, ap,
}
use devin_fusion_via_codex.Journal.Rows.{
  Status, Operation, fetch, finish, reserve_row, fetch-finish, fetch-append, same_key,
}
use devin_fusion_via_codex.Journal.Run.{
  JournalError, Execution, raised, returned_other, returned, Begin, stop, go, begin, settle,
  dispatch, Ran, Checks, run_accepted,
}

abbrev pub Key : Type 0
Key = String × String

-- The table, which outlives the process; the runs that have reserved and not called, those that
-- have called and not recorded; and every call that was made.
pub record World : Type 0 where
  pub rows : List Operation
  pub reserved : List Key
  pub running : List Key
  pub calls : List Key

abbrev pub fresh : World
fresh = record { rows = []; reserved = []; running = []; calls = [] }

pub data Step (w u : World) : Type 0 where
  reserving :
      (scope cid fingerprint : String) (check : Bool) (rows : List Operation)
      → begin scope cid fingerprint check w.rows ≡ (go, rows)
      → u ≡ record w { rows = rows; reserved = (scope, cid) ∷ w.reserved }
      → Step w u
  refuse :
      (scope cid fingerprint : String) (check : Bool) (rows : List Operation)
      (r : Result JournalError (Option String))
      → begin scope cid fingerprint check w.rows ≡ (stop r, rows)
      → u ≡ record w { rows = rows }
      → Step w u
  cancel :
      (scope cid : String) (before after : List Key)
      → w.reserved ≡ before ++ (scope, cid) ∷ after
      → u ≡ record w {
        rows = (dispatch scope cid false raised w.rows).rows;
        reserved = before ++ after;
      }
      → Step w u
  call :
      (scope cid : String) (before after : List Key)
      → w.reserved ≡ before ++ (scope, cid) ∷ after
      → u ≡ record w {
        reserved = before ++ after;
        running = (scope, cid) ∷ w.running;
        calls = (scope, cid) ∷ w.calls;
      }
      → Step w u
  record_end :
      (scope cid : String) (execution : Execution) (before after : List Key)
      → w.running ≡ before ++ (scope, cid) ∷ after
      → u ≡ record w { rows = (settle scope cid execution w.rows).1; running = before ++ after }
      → Step w u
  crash : u ≡ record w { reserved = []; running = [] } → Step w u

pub data Reach (w : World) : World → Type 0 where
  here : Reach w w
  next : {u v : World} → Reach w u → Step u v → Reach w v

abbrev pub count : String → String → List Key → ℕ
count t p [] = 0
count t p ((s, o) ∷ keys) = (if same_key s o t p then 1 else 0) + count t p keys

abbrev present_row : Option Operation → ℕ
present_row none = 0
present_row (some row) = 1

abbrev present : String → String → List Operation → ℕ
present t p rows = present_row (fetch t p rows)

count-remove :
    (t p s o : String) (before after : List Key)
    → count t p (before ++ (s, o) ∷ after)
      ≡ (if same_key s o t p then 1 else 0) + count t p (before ++ after)
count-remove t p s o [] after = refl
count-remove t p s o (k ∷ before) after = omega (arith, count-remove t p s o before after)

present-finish :
    (t p s o : String) (status : Status) (result : Option String) (rows : List Operation)
    → present t p (finish s o status result rows) ≡ present t p rows
present-finish t p s o status result rows = ground (arith, fetch-finish s o t p status result rows)

present-settle :
    (t p s o : String) (execution : Execution) (rows : List Operation)
    → present t p (settle s o execution rows).1 ≡ present t p rows
unfolding settle
present-settle t p s o raised rows = present-finish t p s o _ _ rows
present-settle t p s o returned_other rows = present-finish t p s o _ _ rows
present-settle t p s o (returned text) rows = ground (
  arith,
  present-finish t p s o Status.outcome_unknown none rows,
  present-finish t p s o Status.succeeded (some text) rows,
)

present-cancel :
    (t p s o : String) (rows : List Operation)
    → present t p (dispatch s o false raised rows).rows ≡ present t p rows
unfolding dispatch
present-cancel t p s o rows = present-finish t p s o _ _ rows

begin-go :
    (s o fingerprint : String) (check : Bool) (rows rows' : List Operation)
    → begin s o fingerprint check rows ≡ (go, rows')
    → (fetch s o rows ≡ none) × (rows' ≡ reserve_row s o fingerprint rows)
unfolding begin
begin-go s o fingerprint check rows rows' h = ground arith

begin-stop :
    (s o fingerprint : String) (check : Bool) (rows rows' : List Operation)
    (r : Result JournalError (Option String))
    → begin s o fingerprint check rows ≡ (stop r, rows')
    → rows' ≡ rows
unfolding begin
begin-stop s o fingerprint check rows rows' r h = ground arith

present-reserve :
    (t p s o fingerprint : String) (rows : List Operation)
    → fetch s o rows ≡ none
    → present t p (reserve_row s o fingerprint rows)
      ≡ (if same_key s o t p then 1 else present t p rows)
present-reserve t p s o fingerprint rows h =
    rw (fetch-append t p rows) (unfold fetch in ground (arith, eq_iff s t, eq_iff o p))

Reach-trans : {w u v : World} → Reach w u → Reach u v → Reach w v
Reach-trans r here = r
Reach-trans r (next q st) = next (Reach-trans r q) st

-- An operation was called or may yet be called only if it has a row, and at most once in all.
abbrev IsOnce : World → Type 0
IsOnce w = (t p : String) → count t p w.calls + count t p w.reserved ≤ present t p w.rows

Step-IsOnce : {w u : World} → Step w u → IsOnce w → IsOnce u
Step-IsOnce {w} (reserving s o fp check rows b e) h t p =
    let (absent, added) = begin-go s o fp check w.rows rows b in
    rw (e, added, present-reserve t p s o fp w.rows absent)
      (ground (arith, h t p, h s o, eq_iff s t, eq_iff o p))
Step-IsOnce {w} (refuse s o fp check rows r b e) h t p =
    rw (e, begin-stop s o fp check w.rows rows r b) (h t p)
Step-IsOnce {w} (cancel s o before after at e) h t p =
    rw (e, present-cancel t p s o w.rows)
      (omega (arith, h t p, ap (count t p) at, count-remove t p s o before after))
Step-IsOnce {w} (call s o before after at e) h t p =
    rw e (omega (arith, h t p, ap (count t p) at, count-remove t p s o before after))
Step-IsOnce {w} (record_end s o x before after at e) h t p =
    rw (e, present-settle t p s o x w.rows) (h t p)
Step-IsOnce {w} (crash e) h t p = rw e (omega (arith, h t p))

Reach-IsOnce : {w u : World} → Reach w u → IsOnce w → IsOnce u
Reach-IsOnce here h = h
Reach-IsOnce (next r st) h = Step-IsOnce st (Reach-IsOnce r h)

present_row-le : (o : Option Operation) → present_row o ≤ 1
present_row-le none = omega arith
present_row-le (some row) = omega arith

-- From an empty journal, in every interleaving of runs with crashes among them, no operation of a
-- scope is called twice.
pub called_once : {w : World} (t p : String) → Reach fresh w → count t p w.calls ≤ 1
unfolding fetch
called_once {w} t p r =
    omega (arith, Reach-IsOnce r (λ t p. omega arith) t p, present_row-le (fetch t p w.rows))

-- What a run by itself makes of a world.
abbrev pub after_run : World → Key → Ran → World
after_run w key ran = record w {
  rows = ran.rows;
  calls = if ran.executed then key ∷ w.calls else w.calls;
}

dispatch-Reach :
    (w : World) (s o fp : String) (check : Bool) (execution : Execution)
    → Reach
        (record w { reserved = (s, o) ∷ w.reserved })
        (after_run w (s, o) (dispatch s o check execution w.rows))
unfolding dispatch
dispatch-Reach w s o fp false execution =
    next here (cancel s o [] w.reserved refl (unfold dispatch in refl))
dispatch-Reach w s o fp true execution =
    next (next here (call s o [] w.reserved refl refl))
      (record_end s o execution [] w.running refl refl)

-- A run with nothing in between is a sequence of these steps: it is one interleaving among them.
pub run_accepted-Reach :
    (w : World) (s o fp : String) (checks : Checks) (execution : Execution)
    → Reach w (after_run w (s, o) (run_accepted s o fp checks execution w.rows))
unfolding run_accepted
run_accepted-Reach w s o fp checks execution =
    go_on (begin s o fp checks.before_reservation w.rows) refl
  where
    go_on :
        (b : Begin × List Operation)
        → begin s o fp checks.before_reservation w.rows ≡ b
        → Reach w (after_run w (s, o) (run_accepted s o fp checks execution w.rows))
    go_on (stop r, rows) e =
        rw (e, run_accepted) (next here (refuse s o fp checks.before_reservation rows r e refl))
    go_on (go, rows) e =
        rw (e, run_accepted)
          (Reach-trans (next here (reserving s o fp checks.before_reservation rows e refl))
            (dispatch-Reach (record w { rows = rows }) s o fp checks.before_dispatch execution))
