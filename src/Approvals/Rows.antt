-- ===== src/Approvals/Rows.antt =====
-- The table of approvals beside the promises.
use asterim.Prelude.{
  ◌≡◌, refl, ap, ◌∙◌, arith, inl, inr, String, Bool, true, false, Option, none, some, if◌then◌else◌,
  str_eq, str_eq_refl, str_eq-cases, Bool-cases, Option-cases, Map, is_some, get, get-put, one, has,
}
use asterim.Approvals.Settling.{approvals_in, waits, has-delete, Answered, answered, ignored}
use asterim.Approvals.Requests.{
  ApprovalStatus, pending, approved, denied, cancelled, expired, ApprovalRow, is_pending,
  update_status, Manager,
}

-- The status that the table has for a request.
abbrev pub status_of : Option ApprovalRow → Option ApprovalStatus
status_of none = none
status_of (some r) = some r.status

abbrev pub restated : ApprovalStatus → Option ApprovalRow → Option ApprovalStatus
restated new none = none
restated new (some r) = if is_pending r.status then some new else some r.status

update_status-get :
    (new : ApprovalStatus) (id a : String) (rows : Map ApprovalRow)
    → status_of (get a (update_status true new id rows))
      ≡ (if str_eq id a then restated new (get a rows) else status_of (get a rows))
unfolding update_status
update_status-get new id a rows = elim (Option-cases (get id rows)) [
  | inl e ↦ rw e (elim (str_eq-cases id a) [
    | inl same ↦ rw (same, str_eq_refl a) (rw (rw same at e) refl)
    | inr other ↦ rw other refl
  ])
  | inr (r, e) ↦ elim (Bool-cases (is_pending r.status)) [
    | inl live ↦
        rw (e, live)
          (ap status_of (get-put a id (record r { status = new }) rows)
            ∙ (elim (str_eq-cases id a) [
              | inl same ↦ rw (same, str_eq_refl a) (rw (rw same at e, live) refl)
              | inr other ↦ rw other refl
            ]))
    | inr shut ↦
        rw (e, shut)
          (elim (str_eq-cases id a) [
            | inl same ↦ rw (same, str_eq_refl a) (rw (rw same at e, shut) refl)
            | inr other ↦ rw other refl
          ])
  ]
]

abbrev pub is_open : Option ApprovalStatus → Bool
is_open none = false
is_open (some status) = is_pending status

abbrev pub is_approved : Option ApprovalStatus → Bool
is_approved (some approved) = true
is_approved _ = false

abbrev pub row_status : String → Manager → Option ApprovalStatus
row_status a s = status_of (get a s.rows)

-- Beside the rows that an earlier process left, the table says `pending` of the requests that wait,
-- and `approved` of those that resolved to `true`.
abbrev pub Recorded : Map ApprovalRow → Manager → Type 0
Recorded old s =
    (a : String)
    → get a old ≡ none
    → (one (is_open (row_status a s)) ≡ waits a s)
      × (one (is_approved (row_status a s)) ≡ approvals_in a s.log)

restated-open :
    (new : ApprovalStatus) (r : Option ApprovalRow)
    → is_pending new ≡ false
    → is_open (restated new r) ≡ false
restated-open new none h = refl
restated-open new (some r) h = elim (Bool-cases (is_pending r.status)) [
  | inl e ↦ rw e h
  | inr e ↦ rw e e
]

restated-approved :
    (new : ApprovalStatus) (r : Option ApprovalRow)
    → is_approved (restated new r)
      ≡ (if is_open (status_of r) then is_approved (some new) else is_approved (status_of r))
restated-approved new none = refl
restated-approved new (some r) = elim (Bool-cases (is_pending r.status)) [
  | inl e ↦ rw e refl
  | inr e ↦ rw e refl
]

open_unapproved : (o : Option ApprovalStatus) → is_open o ≡ true → is_approved o ≡ false
open_unapproved none h = refl
open_unapproved (some pending) h = refl
open_unapproved (some approved) h = absurd (cc)
open_unapproved (some denied) h = refl
open_unapproved (some cancelled) h = refl
open_unapproved (some expired) h = refl

one-open : (b : Bool) → one b ≡ 1 → b ≡ true
one-open true h = refl
one-open false h = absurd (omega arith)

one-shut : (b : Bool) → one b ≡ 0 → b ≡ false
one-shut true h = absurd (omega arith)
one-shut false h = refl

-- A request that is answered has its row closed with the status of the answer.
pub Answered-Recorded :
    (old : Map ApprovalRow) (v : Bool) (new : ApprovalStatus) (id : String) (s t : Manager)
    → is_pending new ≡ false
    → is_approved (some new) ≡ v
    → t.rows ≡ update_status true new id s.rows
    → Answered v id s t
    → Recorded old s
    → Recorded old t
Answered-Recorded old v new id s t shut agrees rows (answered p there gone asks answers agreed) h a
      novel =
    elim (str_eq-cases id a) [
      | inr other ↦
          let kept : row_status a t ≡ row_status a s = now ∙ rw other refl in
          (
            omega (arith, ap (λ o. one (is_open o)) kept, (h a novel).0, rw other at freed),
            omega
                (arith, ap (λ o. one (is_approved o)) kept, (h a novel).1, rw other at (agreed a)),
          )
      | inl same ↦
          let closed : row_status a t ≡ restated new (get a s.rows) =
            now ∙ rw (same, str_eq_refl a) refl in
          let waited : waits a s ≡ 1 = ap (λ o. one (is_some o)) (rw same at there) in
          let live : is_open (row_status a s) ≡ true =
            one-open (is_open (row_status a s)) ((h a novel).0 ∙ waited) in
          let marked : is_approved (row_status a t) ≡ v =
            ap is_approved closed ∙ (restated-approved new (get a s.rows) ∙ rw live agrees) in
          (
            omega (
              arith,
              ap (λ o. one (is_open o)) closed,
              ap one (restated-open new (get a s.rows) shut),
              rw (same, str_eq_refl a) at freed,
            ),
            omega (
              arith,
              ap one marked,
              ap one (open_unapproved (row_status a s) live),
              (h a novel).1,
              rw (same, str_eq_refl a) at (agreed a),
            ),
          )
    ]
  where
    now : row_status a t ≡ (if str_eq id a then restated new (get a s.rows) else row_status a s)
    now = ap (λ m. status_of (get a m)) rows ∙ update_status-get new id a s.rows

    freed : waits a t ≡ one (if str_eq id a then false else has a s.pending_approvals)
    freed = ap (λ m. one (has a m)) gone ∙ ap one (has-delete a id s.pending_approvals)
Answered-Recorded old v new id s t shut agrees rows (ignored e same log) h a novel =
    elim (str_eq-cases id a) [
      | inr other ↦
          let kept : row_status a t ≡ row_status a s = now ∙ rw other refl in
          rw (kept, same, log) (h a novel)
      | inl own ↦
          let dead : is_open (row_status a s) ≡ false =
            one-shut (is_open (row_status a s))
              ((h a novel).0 ∙ ap (λ o. one (is_some o)) (rw own at e)) in
          let kept : row_status a t ≡ row_status a s =
            now ∙ (rw (own, str_eq_refl a) (restated_dead (get a s.rows) dead)) in
          rw (kept, same, log) (h a novel)
    ]
  where
    now : row_status a t ≡ (if str_eq id a then restated new (get a s.rows) else row_status a s)
    now = ap (λ m. status_of (get a m)) rows ∙ update_status-get new id a s.rows

    restated_dead :
        (r : Option ApprovalRow) → is_open (status_of r) ≡ false → restated new r ≡ status_of r
    restated_dead none d = refl
    restated_dead (some r) d = rw d refl
