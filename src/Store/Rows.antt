-- ===== src/Store/Rows.antt =====
-- What a row holds, and how it is read.
use ai_smart_flow.Shared.{◌≡◌, true, Option, none, some, nat_eq, text_eq, beq_self, arith}
use ai_smart_flow.Errors.{ok}
use ai_smart_flow.State.Records.{ProjectState}
use ai_smart_flow.State.Refine.{refine_state}
use ai_smart_flow.Store.Database.{
  StateRow, Database, parse_state_row, row_of, read_state, insert_state,
}

-- A row is what the store writes for a state that its schema accepts.
pub record IsRowOf (row : StateRow) : Type 0 where
  pub state : ProjectState
  pub written : row ≡ row_of state
  pub accepted : refine_state state ≡ true

-- The row, where there is one, is what the store writes for an accepted state.
abbrev pub IsWellFormedRow : Option StateRow → Type 0
IsWellFormedRow none = Unit
IsWellFormedRow (some row) = IsRowOf row

abbrev pub IsWellFormed : Database → Type 0
IsWellFormed db = IsWellFormedRow db.state_row

pub parse-row_of : (s : ProjectState) → refine_state s ≡ true → parse_state_row (row_of s) ≡ ok s
unfolding parse_state_row
parse-row_of s h =
    rw h (rw (beq_self s.state_version, beq_self s.project_fence, beq_self s.updated_at))

pub parse_row-version :
    (row : StateRow) (s : ProjectState)
    → parse_state_row row ≡ ok s
    → row.state_version ≡ s.state_version
unfolding parse_state_row
parse_row-version row s h = ground arith

pub read-insert :
    (db : Database) (s : ProjectState)
    → refine_state s ≡ true
    → read_state (insert_state db s) ≡ ok s
unfolding read_state insert_state
read-insert db s h = rw (parse-row_of s h)
