-- ===== src/Pipeline/Parser/Readers.antt =====
-- `readStep`, `readTrigger` and `readParameters`.
use asterim.Prelude.{
  ℕ, suc, String, Bool, true, false, not, ◌&&◌, ◌||◌, Option, none, some, List, [], ◌∷◌,
  if◌then◌else◌, ◌==◌, ltb, leb, str_eq, get_or, length, trim, Map, put, all_chars, text_length,
}
use Prim.Native.Char.{Char, code}
use asterim.Pipeline.Graph.{PipelineStep}
use asterim.Pipeline.Parser.Values.{
  YamlValue, text, number, boolean, null, sequence, mapping, YamlMapping, end, entry, member,
  keys_of, step_field, bad_trigger, bad_parameters, too_many_parameters, parameter_not_single,
  step_not_mapping, bad_step_id, Result, ok, refused, ◌>>=◌, ◌>>◌, refuse_if, is_set, or_else,
  refuse_unknown_keys, text_of, require_text, optional_text, read_boolean, read_timeout,
  read_bounded_integer, read_string_list, read_depends_on,
}

abbrev pub max_pipeline_steps : ℕ
max_pipeline_steps = 25

abbrev pub max_pipeline_name_chars : ℕ
max_pipeline_name_chars = 120

abbrev pub max_pipeline_description_chars : ℕ
max_pipeline_description_chars = 2000

abbrev pub max_pipeline_task_chars : ℕ
max_pipeline_task_chars = 20000

abbrev pub max_pipeline_context_chars : ℕ
max_pipeline_context_chars = 60000

abbrev pub max_pipeline_parameters : ℕ
max_pipeline_parameters = 50

abbrev pub max_pipeline_step_retries : ℕ
max_pipeline_step_retries = 3

abbrev pub max_pipeline_retry_delay_ms : ℕ
max_pipeline_retry_delay_ms = 60000

abbrev pub step_keys : List String
step_keys =
    "id" ∷ "name" ∷ "roleProfileId" ∷ "role" ∷ "task" ∷ "taskDescription" ∷ "dependsOn"
    ∷ "inputContext" ∷ "context" ∷ "timeoutMs" ∷ "isolateWorktree" ∷ "verifyPipeline"
    ∷ "verificationSteps" ∷ "retries" ∷ "retryDelayMs" ∷ []

-- A letter or a digit of `PIPELINE_STEP_ID_PATTERN`.
abbrev pub is_alphanumeric : Char → Bool
is_alphanumeric c =
    let n = code c in
    (leb b'A' n && leb n b'Z') || (leb b'a' n && leb n b'z') || (leb b'0' n && leb n b'9')

abbrev pub is_id_char : Char → Bool
is_id_char c = is_alphanumeric c || (code c == b'_') || (code c == b'-')

-- `/^[A-Za-z0-9][A-Za-z0-9_-]{0,63}$/`.
unfoldable pub is_valid_pipeline_step_id : String → Bool
unfolding all_chars text_length
is_valid_pipeline_step_id String.[] = false
is_valid_pipeline_step_id (String.◌∷◌ c s) =
    is_alphanumeric c && all_chars is_id_char s && leb (text_length s) 63

-- A field that the step says nothing about stays unset.
abbrev pub read_set {ℓ} : {A : Type ℓ} → Option YamlValue → Result A → Result (Option A)
read_set value r = if is_set value then (r >>= λ a. ok (some a)) else ok none

abbrev pub read_step_fields : YamlMapping → ℕ → Result PipelineStep
read_step_fields m position = do
  refuse_unknown_keys m step_keys
  id ← require_text (member "id" m) (step_field position "id") 64
  refuse_if (not (is_valid_pipeline_step_id id)) (bad_step_id id)
  role ←
      require_text (or_else (member "roleProfileId" m) (member "role" m))
        (step_field position "roleProfileId") 200
  task ←
      require_text (or_else (member "task" m) (member "taskDescription" m))
        (step_field position "task") max_pipeline_task_chars
  name ← optional_text (member "name" m) (step_field position "name") max_pipeline_name_chars
  context ←
      optional_text (or_else (member "inputContext" m) (member "context" m))
        (step_field position "inputContext") max_pipeline_context_chars
  depends_on ← read_depends_on (member "dependsOn" m) (step_field position "dependsOn")
  timeout ←
      read_set (member "timeoutMs" m)
        (read_timeout (member "timeoutMs" m) (step_field position "timeoutMs"))
  isolate ←
      read_set (member "isolateWorktree" m)
        (read_boolean (member "isolateWorktree" m) (step_field position "isolateWorktree"))
  verify ←
      read_set (member "verifyPipeline" m)
        (read_boolean (member "verifyPipeline" m) (step_field position "verifyPipeline"))
  verification ←
      read_set (member "verificationSteps" m)
        (read_string_list (member "verificationSteps" m) (step_field position "verificationSteps"))
  retries ← read_set (member "retries" m) (
      read_bounded_integer (member "retries" m) (step_field position "retries") 0
        max_pipeline_step_retries)
  delay ← read_set (member "retryDelayMs" m) (
      read_bounded_integer (member "retryDelayMs" m) (step_field position "retryDelayMs") 0
        max_pipeline_retry_delay_ms)
  ok (record {
    id = id;
    name = get_or name id;
    role_profile_id = role;
    task = task;
    depends_on = depends_on;
    input_context = context;
    timeout_ms = timeout;
    isolate_worktree = isolate;
    verify_pipeline = verify;
    verification_steps = verification;
    retries = retries;
    retry_delay_ms = delay;
  })

unfoldable pub read_step : YamlValue → ℕ → Result PipelineStep
unfolding refuse_unknown_keys member require_text optional_text read_depends_on read_timeout
    read_boolean read_string_list read_bounded_integer is_valid_pipeline_step_id
read_step (mapping m) position = read_step_fields m position
read_step v position = refused (step_not_mapping (suc position))

-- `value.map((entry, position) => this.readStep(entry, position))`.
unfoldable pub read_each_step : List YamlValue → ℕ → Result (List PipelineStep)
unfolding read_step
read_each_step [] position = ok []
read_each_step (v ∷ vs) position =
    let rest = read_each_step vs (suc position) in
    do s ← read_step v position; ss ← rest; ok (s ∷ ss)

pub data TriggerType : Type 0 where
  manual git_commit file_change schedule : TriggerType

module _ (upper : String → String) where
  abbrev pub trigger_named : String → Option TriggerType
  trigger_named s =
      if str_eq "MANUAL" s
      then some manual
      else if str_eq "GIT_COMMIT" s
      then some git_commit
      else if str_eq "FILE_CHANGE" s
      then some file_change
      else if str_eq "SCHEDULE" s
      then some schedule
      else none

  abbrev pub known_trigger : Option TriggerType → Result TriggerType
  known_trigger none = refused bad_trigger
  known_trigger (some t) = ok t

  unfoldable pub read_trigger : Option YamlValue → Result TriggerType
  unfolding trim
  read_trigger none = ok manual
  read_trigger (some null) = ok manual
  read_trigger v = known_trigger (trigger_named (upper (text_of v)))

abbrev pub parameter_text : String → YamlValue → Result String
parameter_text key null = ok ""
parameter_text key (sequence vs) = refused (parameter_not_single key)
parameter_text key (mapping m) = refused (parameter_not_single key)
parameter_text key (text s) = ok s
parameter_text key (number n) = ok n.shown
parameter_text key (boolean true) = ok "true"
parameter_text key (boolean false) = ok "false"

unfoldable pub read_each_parameter : YamlMapping → Map String → Result (Map String)
read_each_parameter end parameters = ok parameters
read_each_parameter (entry key v rest) parameters =
    parameter_text key v >>= λ s. read_each_parameter rest (put key s parameters)

unfoldable pub read_parameters : Option YamlValue → Result (Option (Map String))
unfolding read_each_parameter
read_parameters none = ok none
read_parameters (some null) = ok none
read_parameters (some (mapping end)) = ok none
read_parameters (some (mapping (entry key v rest))) = do
  refuse_if (ltb max_pipeline_parameters (length (keys_of (entry key v rest)))) too_many_parameters
  parameters ← read_each_parameter (entry key v rest) []
  ok (some parameters)
read_parameters (some v) = refused bad_parameters
