-- ===== src/Engine/Changes.antt =====
-- What the steps of the loop do to the statuses, the rows and the log, and what every such change keeps.
use asterim.Prelude.{
  ◌≡◌, refl, sym, ap, ◌∙◌, subst, arith, ◌⊎◌, inl, inr, String, Bool, true, false, ◌||◌, some, List,
  [], ◌∷◌, ◌++◌, map, append-nil, append_assoc, if◌then◌else◌, str_eq, str_eq_iff, str_eq-cases,
  str_eq_comm, Bool-cases, is_some, any, All, All-append, Map, get, put, get-put, get-put_self,
  IsKeyed, put-IsKeyed,
}
use asterim.Pipeline.Graph.{StepStatus, passed, PipelineStep}
use asterim.Engine.Types.{StepRunRow, Event, step_completed, Execution, update_rows}

abbrev pub step_is : String → PipelineStep → Bool
step_is id s = str_eq s.id id

-- The event says that step `id` passed.
abbrev pub says_passed : String → Event → Bool
says_passed id (step_completed k passed) = str_eq k id
says_passed id e = false

-- How an execution moves on: by writes of a status to a step, its row and the log, and by what
-- touches none of these. `Ok` says which writes there are, and `Ev` which events.
pub data Change (Ok : String → StepStatus → Type 0) (Ev : Event → Type 0)
    : Execution → Execution → Type 0 where
  same :
      (x y : Execution)
      → y.statuses ≡ x.statuses
      → y.rows ≡ x.rows
      → y.log ≡ x.log
      → Change Ok Ev x y
  write :
      (x y : Execution) (id : String) (v : StepStatus) (f : StepRunRow → StepRunRow)
      (es : List Event)
      → Ok id v
      → ((r : StepRunRow) → ((f r).status ≡ v) × ((f r).step_id ≡ r.step_id))
      → (v ≡ passed → any (says_passed id) es ≡ true)
      → All Ev es
      → y.statuses ≡ put id v x.statuses
      → y.rows ≡ update_rows id f x.rows
      → y.log ≡ x.log ++ es
      → Change Ok Ev x y
  after : {x y z : Execution} → Change Ok Ev x y → Change Ok Ev y z → Change Ok Ev x z

module _ {Ok : String → StepStatus → Type 0} {Ev : Event → Type 0} where
  -- A change leaves a step alone that it may not write.
  pub Change-outside :
      {x y : Execution} (k : String)
      → Change Ok Ev x y
      → ((v : StepStatus) → ¬ Ok k v)
      → get k y.statuses ≡ get k x.statuses
  Change-outside k (same x y s r l) out = ap (get k) s
  Change-outside k (write x y id v f es ok fit says evs s r l) out = elim (str_eq-cases id k) [
    | inl hit ↦ absurd (out v (subst (λ j. Ok j v) hit ok))
    | inr other ↦ ap (get k) s ∙ rw (get-put k id v x.statuses, other) refl
  ]
  Change-outside k (after c d) out = Change-outside k d out ∙ Change-outside k c out

  -- A status after a change is as before, or one that may be written.
  pub Change-status :
      {x y : Execution} (k : String) (v : StepStatus)
      → Change Ok Ev x y
      → get k y.statuses ≡ some v
      → (get k x.statuses ≡ some v) ⊎ Ok k v
  Change-status k v (same x y s r l) h = inl (sym (ap (get k) s) ∙ h)
  Change-status k v (write x y id u f es ok fit says evs s r l) h = elim (str_eq-cases id k) [
    | inl hit ↦
        let now : get k (put id u x.statuses) ≡ some v = sym (ap (get k) s) ∙ h in
        let one_status : some u ≡ some v =
          rw (get-put k id u x.statuses, (str_eq_iff id k).1 hit) at now in
        let u_is : u ≡ v = cc in inr (subst (λ j. Ok j v) hit (subst (Ok id) u_is ok))
    | inr other ↦ inl (rw (get-put k id u x.statuses, other) at (sym (ap (get k) s) ∙ h))
  ]
  Change-status k v (after c d) h = elim (Change-status k v d h) [
    | inl before ↦ Change-status k v c before
    | inr written ↦ inr written
  ]

  pub Change-is_some :
      {x y : Execution} (k : String)
      → Change Ok Ev x y
      → is_some (get k x.statuses) ≡ true
      → is_some (get k y.statuses) ≡ true
  Change-is_some k (same x y s r l) h = ap (λ m. is_some (get k m)) s ∙ h
  Change-is_some k (write x y id v f es ok fit says evs s r l) h =
      ap (λ m. is_some (get k m)) s ∙ (elim (Bool-cases (str_eq id k)) [
        | inl hit ↦ rw (get-put k id v x.statuses, hit) refl
        | inr other ↦ rw (get-put k id v x.statuses, other) h
      ])
  Change-is_some k (after c d) h = Change-is_some k d (Change-is_some k c h)

  pub Change-IsKeyed :
      {x y : Execution} → Change Ok Ev x y → IsKeyed x.statuses → IsKeyed y.statuses
  Change-IsKeyed (same x y s r l) h = subst IsKeyed (sym s) h
  Change-IsKeyed (write x y id v f es ok fit says evs s r l) h =
      subst IsKeyed (sym s) (put-IsKeyed id v x.statuses h)
  Change-IsKeyed (after c d) h = Change-IsKeyed d (Change-IsKeyed c h)

-- Each row has the status that the memory has.
abbrev pub RowAgrees : Map StepStatus → StepRunRow → Type 0
RowAgrees m r = get r.step_id m ≡ some r.status

abbrev pub row_ids : List StepRunRow → List String
row_ids rs = map (λ r. r.step_id) rs

update_rows-row_ids :
    (id : String) (f : StepRunRow → StepRunRow) (rs : List StepRunRow)
    → ((r : StepRunRow) → (f r).step_id ≡ r.step_id)
    → row_ids (update_rows id f rs) ≡ row_ids rs
unfolding update_rows
update_rows-row_ids id f [] fit = refl
update_rows-row_ids id f (r ∷ rs) fit = elim (Bool-cases (str_eq r.step_id id)) [
  | inl e ↦ rw (e, fit r, update_rows-row_ids id f rs fit) refl
  | inr e ↦ rw (e, update_rows-row_ids id f rs fit) refl
]

update_rows-agree :
    (id : String) (v : StepStatus) (f : StepRunRow → StepRunRow) (m : Map StepStatus)
    (rs : List StepRunRow)
    → ((r : StepRunRow) → ((f r).status ≡ v) × ((f r).step_id ≡ r.step_id))
    → All (RowAgrees m) rs
    → All (RowAgrees (put id v m)) (update_rows id f rs)
unfolding update_rows
update_rows-agree id v f m [] fit h = tt
update_rows-agree id v f m (r ∷ rs) fit (first, h) =
    (agrees (str_eq r.step_id id) refl, update_rows-agree id v f m rs fit h)
  where
    agrees : (b : Bool) → str_eq r.step_id id ≡ b → RowAgrees (put id v m) (if b then f r else r)
    agrees true e =
        let here : r.step_id ≡ id = (str_eq_iff r.step_id id).0 e in
        ap (λ k. get k (put id v m)) ((fit r).1 ∙ here)
        ∙ (get-put_self id v m ∙ ap some (sym (fit r).0))
    agrees false e = rw (get-put r.step_id id v m, str_eq_comm id r.step_id, e) first

module _ {Ok : String → StepStatus → Type 0} {Ev : Event → Type 0} where
  pub Change-rows :
      {x y : Execution}
      → Change Ok Ev x y
      → All (RowAgrees x.statuses) x.rows
      → All (RowAgrees y.statuses) y.rows
  Change-rows (same x y s r l) h =
      subst (λ m. All (RowAgrees m) y.rows) (sym s) (subst (All (RowAgrees x.statuses)) (sym r) h)
  Change-rows (write x y id v f es ok fit says evs s r l) h =
      subst (λ m. All (RowAgrees m) y.rows) (sym s)
        (subst (All (RowAgrees (put id v x.statuses))) (sym r)
          (update_rows-agree id v f x.statuses x.rows fit h))
  Change-rows (after c d) h = Change-rows d (Change-rows c h)

  -- The rows stay those of the same steps.
  pub Change-row_ids : {x y : Execution} → Change Ok Ev x y → row_ids y.rows ≡ row_ids x.rows
  Change-row_ids (same x y s r l) = ap row_ids r
  Change-row_ids (write x y id v f es ok fit says evs s r l) =
      ap row_ids r ∙ update_rows-row_ids id f x.rows (λ row. (fit row).1)
  Change-row_ids (after c d) = Change-row_ids d ∙ Change-row_ids c

  -- The log grows by events that may happen.
  pub Change-log :
      {x y : Execution} → Change Ok Ev x y → (es : List Event) × (y.log ≡ x.log ++ es) × All Ev es
  Change-log (same x y s r l) = ([], l ∙ sym (append-nil x.log), tt)
  Change-log (write x y id v f es ok fit says evs s r l) = (es, l, evs)
  Change-log (after {x} {y} c d) =
      let (es, l, evs) = Change-log c in
      let (es', l', evs') = Change-log d in
      (
        es ++ es',
        l' ∙ (ap (λ k. k ++ es') l ∙ append_assoc x.log es es'),
        All-append Ev es es' evs evs',
      )

pub any-append {ℓ} :
    {A : Type ℓ} (p : A → Bool) (xs ys : List A) → any p (xs ++ ys) ≡ any p xs || any p ys
any-append p [] ys = refl
any-append p (x ∷ xs) ys = ground (arith, any-append p xs ys)

-- A step that has the status `PASSED` has been said to pass.
abbrev pub PassedLogged : Execution → Type 0
PassedLogged x = (k : String) → get k x.statuses ≡ some passed → any (says_passed k) x.log ≡ true

module _ {Ok : String → StepStatus → Type 0} {Ev : Event → Type 0} where
  pub Change-logged : {x y : Execution} → Change Ok Ev x y → PassedLogged x → PassedLogged y
  Change-logged (same x y s r l) h k e = ap (any (says_passed k)) l ∙ h k (sym (ap (get k) s) ∙ e)
  Change-logged (write x y id v f es ok fit says evs s r l) h k e =
      ap (any (says_passed k)) l ∙ (any-append (says_passed k) x.log es ∙ said)
    where
      now : get k (put id v x.statuses) ≡ some passed
      now = sym (ap (get k) s) ∙ e

      or_last : (a b : Bool) → b ≡ true → a || b ≡ true
      or_last true b t = refl
      or_last false b t = t

      or_first : (a b : Bool) → a ≡ true → a || b ≡ true
      or_first true b t = refl
      or_first false b t = absurd (cc)

      said : any (says_passed k) x.log || any (says_passed k) es ≡ true
      said = elim (str_eq-cases id k) [
        | inr other ↦
            or_first (any (says_passed k) x.log) (any (says_passed k) es)
              (h k (rw (get-put k id v x.statuses, other) at now))
        | inl hit ↦
            let one_status : some v ≡ some passed =
              rw (get-put k id v x.statuses, (str_eq_iff id k).1 hit) at now in
            or_last (any (says_passed k) x.log) (any (says_passed k) es)
              (subst (λ j. any (says_passed j) es ≡ true) hit (says (cc)))
      ]
  Change-logged (after c d) h k e = Change-logged d (λ j. Change-logged c h j) k e
