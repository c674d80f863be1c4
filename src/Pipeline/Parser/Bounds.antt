-- ===== src/Pipeline/Parser/Bounds.antt =====
-- What `readStep` lets through.
use asterim.Prelude.{
  ℕ, suc, ◌≤◌, ◌≡◌, refl, ap, subst, arith, inl, inr, String, Bool, true, false, not, Option, none,
  some, List, [], ◌∷◌, ltb, Bool-cases, is_empty, text_units, length, All,
}
use asterim.Pipeline.Graph.{PipelineStep}
use asterim.Pipeline.Parser.Values.{
  Number, YamlValue, number, mapping, YamlMapping, member, FieldName, PipelineParseError,
  bad_step_id, step_field, or_else, refuse_unknown_keys, optional_text, read_boolean,
  read_string_list, read_depends_on, Result, ok, refused, ◌>>=◌, refuse_if, is_set, text_of,
  require_text, max_delegation_timeout_ms, read_timeout, read_bounded_integer, is_positive, exceeds,
  is_outside,
}
use asterim.Pipeline.Parser.Readers.{
  step_keys, max_pipeline_name_chars, max_pipeline_context_chars, max_pipeline_task_chars,
  max_pipeline_step_retries, max_pipeline_retry_delay_ms, is_valid_pipeline_step_id, read_set,
  read_step_fields, read_step, read_each_step,
}

-- If it returns, what it returns has the property.
pub data Ensures {ℓ} {A : Type ℓ} (P : A → Type 0) : Result A → Type ℓ where
  returns : {a : A} → P a → Ensures P (ok a)
  refuses : {e : PipelineParseError} → Ensures P (refused e)

pub Ensures-bind {ℓ κ} :
    {A : Type ℓ} {B : Type κ} {P : A → Type 0} {Q : B → Type 0} {m : Result A} (f : A → Result B)
    → Ensures P m
    → ((a : A) → P a → Ensures Q (f a))
    → Ensures Q (m >>= f)
Ensures-bind f (returns p) rule = rule _ p
Ensures-bind f refuses rule = refuses

pub Ensures-any {ℓ} : {A : Type ℓ} (r : Result A) → Ensures (λ a. Unit) r
Ensures-any (ok a) = returns tt
Ensures-any (refused e) = refuses

pub Ensures-ok {ℓ} :
    {A : Type ℓ} {P : A → Type 0} {r : Result A} {a : A} → Ensures P r → r ≡ ok a → P a
Ensures-ok {P = P} {a = a} (returns {a = b} p) e = let same : b ≡ a = cc in subst P same p
Ensures-ok refuses e = absurd (cc)

abbrev IsText : ℕ → String → Type 0
IsText limit s = (is_empty s ≡ false) × (text_units s ≤ limit)

require_text-Ensures :
    (v : Option YamlValue) (name : FieldName) (limit : ℕ)
    → Ensures (IsText limit) (require_text v name limit)
unfolding require_text
require_text-Ensures v name limit = elim (Bool-cases (is_empty (text_of v))) [
  | inl e ↦ rw e refuses
  | inr e ↦ rw e (elim (Bool-cases (ltb limit (text_units (text_of v)))) [
    | inl long ↦ rw long refuses
    | inr short ↦ rw short (returns (e, ground arith))
  ])
]

abbrev AtMost : ℕ → Option ℕ → Type 0
AtMost limit none = Unit
AtMost limit (some n) = n ≤ limit

read_timeout-Ensures :
    (v : Option YamlValue) (name : FieldName)
    → Ensures (λ n. n ≤ max_delegation_timeout_ms) (read_timeout v name)
unfolding read_timeout
read_timeout-Ensures (some (number n)) name = elim (Bool-cases (not (is_positive n))) [
  | inl bad ↦ rw bad refuses
  | inr good ↦ rw good (elim (Bool-cases (exceeds n max_delegation_timeout_ms)) [
    | inl long ↦ rw long refuses
    | inr short ↦ rw short (returns (positive_bound n good short))
  ])
]
  where
    positive_bound :
        (n : Number)
        → not (is_positive n) ≡ false
        → exceeds n max_delegation_timeout_ms ≡ false
        → n.whole ≤ max_delegation_timeout_ms
    positive_bound n good short = ground arith
read_timeout-Ensures v name = refuses

read_bounded_integer-Ensures :
    (v : Option YamlValue) (name : FieldName) (lowest highest : ℕ)
    → Ensures (λ n. n ≤ highest) (read_bounded_integer v name lowest highest)
unfolding read_bounded_integer
read_bounded_integer-Ensures (some (number n)) name lowest highest =
    elim (Bool-cases n.has_fraction) [
      | inl bad ↦ rw bad refuses
      | inr good ↦ rw good (elim (Bool-cases (is_outside n lowest highest)) [
        | inl far ↦ rw far refuses
        | inr near ↦ rw near (returns (ground arith))
      ])
    ]
read_bounded_integer-Ensures v name lowest highest = refuses

read_set-Ensures :
    (v : Option YamlValue) (r : Result ℕ) (limit : ℕ)
    → Ensures (λ n. n ≤ limit) r
    → Ensures (AtMost limit) (read_set v r)
read_set-Ensures v r limit h = elim (Bool-cases (is_set v)) [
  | inr unset ↦ rw unset (returns tt)
  | inl set ↦ rw set (Ensures-bind (λ n. ok (some n)) h (λ n small. returns small))
]

-- What the engine may rely on in a step.
pub record IsBounded (s : PipelineStep) : Type 0 where
  pub named : is_valid_pipeline_step_id s.id ≡ true
  pub has_task : IsText max_pipeline_task_chars s.task
  pub timeout : AtMost max_delegation_timeout_ms s.timeout_ms
  pub retried : AtMost max_pipeline_step_retries s.retries
  pub delayed : AtMost max_pipeline_retry_delay_ms s.retry_delay_ms

valid_id :
    (id : String) (e : PipelineParseError)
    → Ensures
        (λ u. is_valid_pipeline_step_id id ≡ true)
        (refuse_if (not (is_valid_pipeline_step_id id)) e)
valid_id id e = elim (Bool-cases (is_valid_pipeline_step_id id)) [
  | inl good ↦ guarded (is_valid_pipeline_step_id id) good
  | inr bad ↦ rw bad refuses
]
  where
    guarded : (b : Bool) → b ≡ true → Ensures (λ u. b ≡ true) (refuse_if (not b) e)
    guarded true h = returns h
    guarded false h = refuses

read_step_fields-Ensures :
    (m : YamlMapping) (position : ℕ) → Ensures IsBounded (read_step_fields m position)
read_step_fields-Ensures m position =
    Ensures-bind _ (Ensures-any (refuse_unknown_keys m step_keys)) λ u t.
      Ensures-bind _ (Ensures-any (require_text (member "id" m) (at "id") 64)) λ id i.
        Ensures-bind _ (valid_id id (bad_step_id id)) λ u named.
          Ensures-bind _
            (Ensures-any (require_text (either "roleProfileId" "role") (at "roleProfileId") 200))
            λ role r.
              Ensures-bind _
                (require_text-Ensures (either "task" "taskDescription") (at "task")
                  max_pipeline_task_chars)
                λ task has_task.
                  Ensures-bind _
                    (Ensures-any
                      (optional_text (member "name" m) (at "name") max_pipeline_name_chars))
                    λ name n.
                      Ensures-bind _
                        (Ensures-any (
                          optional_text (either "inputContext" "context") (at "inputContext")
                            max_pipeline_context_chars))
                        λ context c.
                          Ensures-bind _
                            (Ensures-any (read_depends_on (member "dependsOn" m) (at "dependsOn")))
                            λ depends_on d.
                              Ensures-bind _
                                (read_set-Ensures (member "timeoutMs" m)
                                  (read_timeout (member "timeoutMs" m) (at "timeoutMs"))
                                  max_delegation_timeout_ms
                                  (read_timeout-Ensures (member "timeoutMs" m) (at "timeoutMs")))
                                λ timeout small.
                                  Ensures-bind _ (Ensures-any (flag "isolateWorktree")) λ isolate o.
                                    Ensures-bind _ (Ensures-any (flag "verifyPipeline")) λ verify v.
                                      Ensures-bind _
                                        (Ensures-any (
                                          read_set (member "verificationSteps" m) (
                                            read_string_list (member "verificationSteps" m)
                                              (at "verificationSteps"))))
                                        λ verification w.
                                          Ensures-bind _ (count "retries" max_pipeline_step_retries)
                                            λ retries few.
                                              Ensures-bind _
                                                (count "retryDelayMs" max_pipeline_retry_delay_ms)
                                                λ delay short. returns (record {
                                                  named = named;
                                                  has_task = has_task;
                                                  timeout = small;
                                                  retried = few;
                                                  delayed = short;
                                                })
  where
    at : String → FieldName
    at key = step_field position key

    either : String → String → Option YamlValue
    either key other = or_else (member key m) (member other m)

    flag : String → Result (Option Bool)
    flag key = read_set (member key m) (read_boolean (member key m) (at key))

    count :
        (key : String) (limit : ℕ)
        → Ensures
            (AtMost limit)
            (read_set (member key m) (read_bounded_integer (member key m) (at key) 0 limit))
    count key limit =
        read_set-Ensures (member key m) (read_bounded_integer (member key m) (at key) 0 limit) limit
          (read_bounded_integer-Ensures (member key m) (at key) 0 limit)

read_step-Ensures : (v : YamlValue) (position : ℕ) → Ensures IsBounded (read_step v position)
unfolding read_step
read_step-Ensures (mapping m) position = read_step_fields-Ensures m position
read_step-Ensures v position = refuses

pub read_each_step-Ensures :
    (vs : List YamlValue) (position : ℕ)
    → Ensures (λ ss. (length ss ≡ length vs) × All IsBounded ss) (read_each_step vs position)
unfolding read_each_step
read_each_step-Ensures [] position = returns (refl, tt)
read_each_step-Ensures (v ∷ vs) position =
    Ensures-bind _ (read_step-Ensures v position) λ s bounded.
      Ensures-bind _ (read_each_step-Ensures vs (suc position))
        λ ss (same, all_bounded). returns (ap suc same, (bounded, all_bounded))
