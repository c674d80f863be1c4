-- ===== src/Approvals/Requests.antt =====
-- The life of an approval request: `requestApproval`, its timeout, the client's response,
-- `cancelApproval`, `cancelApprovalsForThread` and `recoverPendingApprovals`. A promise that is
-- resolved and an event that is published go to the log. The table `approvals` is a map by action
-- id; `db_ok` says whether a statement succeeds, since every failure of it is caught and logged.
use asterim.Prelude.{
  ℕ, String, Bool, true, false, ◌||◌, Option, none, some, List, [], ◌∷◌, ◌++◌, if◌then◌else◌,
  str_eq, Map, get, put, delete, length, is_empty,
}

pub data ApprovalStatus : Type 0 where
  pending approved denied cancelled expired : ApprovalStatus

pub record ApprovalRow : Type 0 where
  pub project_id : String
  pub description : String
  pub command : String
  pub status : ApprovalStatus

-- The thread of a request that waits. Its resolver and its timer are its action id's.
pub record PendingApproval : Type 0 where
  pub thread_id : Option String

pub data Effect : Type 0 where
  -- `agent.approval_request`, with its action id.
  requested : String → Effect
  -- The same event, published again by the recovery.
  recovered : String → Effect
  -- `agent.approval_cancelled`.
  withdrawn : String → Option String → Effect
  -- The promise of a request, and what it resolves to.
  resolved : String → Bool → Effect

pub record Manager : Type 0 where
  pub pending_approvals : Map PendingApproval
  pub rows : Map ApprovalRow
  pub log : List Effect

abbrev pub new_manager : Manager
new_manager = record { pending_approvals = []; rows = []; log = [] }

abbrev pub is_pending : ApprovalStatus → Bool
is_pending pending = true
is_pending _ = false

-- `UPDATE approvals SET status = ? WHERE action_id = ? AND status = 'pending'`.
abbrev pub update_found :
    ApprovalStatus → String → Option ApprovalRow → Map ApprovalRow → Map ApprovalRow
update_found status action_id none rows = rows
update_found status action_id (some r) rows =
    if is_pending r.status then put action_id (record r { status = status }) rows else rows

unfoldable pub update_status : Bool → ApprovalStatus → String → Map ApprovalRow → Map ApprovalRow
update_status db_ok status action_id rows =
    if db_ok then update_found status action_id (get action_id rows) rows else rows

pub record Request : Type 0 where
  pub project_id : String
  pub description : String
  pub command : String
  pub thread_id : Option String

abbrev pub row_of : Request → ApprovalRow
row_of r = record {
  project_id = r.project_id;
  description = r.description;
  command = r.command;
  status = pending;
}

abbrev pub waiting_of : Request → PendingApproval
waiting_of r = record { thread_id = r.thread_id }

-- `action_id` is the new UUID.
unfoldable pub request_approval : Bool → String → Request → Manager → Manager
request_approval db_ok action_id r s = record {
  pending_approvals = put action_id (waiting_of r) s.pending_approvals;
  rows = if db_ok then put action_id (row_of r) s.rows else s.rows;
  log = s.log ++ requested action_id ∷ [];
}

abbrev pub time_out_found : Bool → String → Option PendingApproval → Manager → Manager
time_out_found db_ok action_id none s = s
time_out_found db_ok action_id (some p) s = record {
  pending_approvals = delete action_id s.pending_approvals;
  rows = update_status db_ok expired action_id s.rows;
  log = s.log ++ resolved action_id false ∷ [];
}

-- The timer of a request fires.
unfoldable pub time_out : Bool → String → Manager → Manager
time_out db_ok action_id s = time_out_found db_ok action_id (get action_id s.pending_approvals) s

abbrev pub decision : Bool → ApprovalStatus
decision true = approved
decision false = denied

abbrev pub respond_found : String → Bool → Option PendingApproval → Manager → Manager
respond_found action_id verdict none s = s
respond_found action_id verdict (some p) s = record s {
  pending_approvals = delete action_id s.pending_approvals;
  log = s.log ++ resolved action_id verdict ∷ [];
}

-- `client.approval_response`: the table is updated whether or not a promise waits.
unfoldable pub respond : Bool → String → Bool → Manager → Manager
respond db_ok action_id verdict s =
    respond_found action_id verdict (get action_id s.pending_approvals)
      (record s { rows = update_status db_ok (decision verdict) action_id s.rows })

abbrev pub cancel_found : Bool → String → Option PendingApproval → Manager → Manager × Bool
cancel_found db_ok action_id none s = (s, false)
cancel_found db_ok action_id (some p) s = (
  record {
    pending_approvals = delete action_id s.pending_approvals;
    rows = update_status db_ok cancelled action_id s.rows;
    log = s.log ++ withdrawn action_id p.thread_id ∷ resolved action_id false ∷ [];
  },
  true,
)

unfoldable pub cancel_approval : Bool → String → Manager → Manager × Bool
cancel_approval db_ok action_id s =
    cancel_found db_ok action_id (get action_id s.pending_approvals) s

abbrev pub is_of_thread : String → PendingApproval → Bool
is_of_thread thread p = elim p.thread_id [ none ↦ false | some t ↦ str_eq t thread ]

-- The action ids whose request passes the test, in order.
unfoldable pub ids_where : (PendingApproval → Bool) → Map PendingApproval → List String
ids_where test [] = []
ids_where test ((action_id, p) ∷ rest) =
    let ids = ids_where test rest in if test p then action_id ∷ ids else ids

unfoldable pub cancel_each : (String → Bool) → List String → Manager → Manager
unfolding cancel_approval
cancel_each db_ok [] s = s
cancel_each db_ok (action_id ∷ ids) s =
    cancel_each db_ok ids (cancel_approval (db_ok action_id) action_id s).0

unfoldable pub cancel_approvals_for_thread : (String → Bool) → String → Manager → Manager × ℕ
unfolding ids_where cancel_each
cancel_approvals_for_thread db_ok thread s =
    let ids = ids_where (is_of_thread thread) s.pending_approvals in
    (cancel_each db_ok ids s, length ids)

-- `!threadId || pending.threadId === threadId`.
abbrev pub is_listed : Option String → PendingApproval → Bool
is_listed none p = true
is_listed (some thread) p = is_empty thread || is_of_thread thread p

unfoldable pub get_pending_action_ids : Option String → Manager → List String
unfolding ids_where
get_pending_action_ids thread s = ids_where (is_listed thread) s.pending_approvals

unfoldable pub recovery_notices : Map ApprovalRow → List Effect
recovery_notices [] = []
recovery_notices ((action_id, r) ∷ rest) =
    let notices = recovery_notices rest in
    if is_pending r.status then recovered action_id ∷ notices else notices

-- `recoverPendingApprovals`, after a restart: the requests are published again, and no promise waits
-- for them.
unfoldable pub recover_pending_approvals : Bool → Manager → Manager
unfolding recovery_notices
recover_pending_approvals db_ok s =
    if db_ok then record s { log = s.log ++ recovery_notices s.rows } else s
