-- ===== src/Types.antt =====
-- rl_sim/types.py: the data unit of the whole loop, its status and the task lines.
pub mod Roundtrip
mod Tests
use llm_rl_cpu_poc.Common.{
  ℕ, String, Option, none, some, List, [], ◌∷◌, ◌==◌, text_key, if◌then◌else◌,
}
use mathlib.Core.Option
use llm_rl_cpu_poc.Common.Dict.{Dict}
use llm_rl_cpu_poc.Common.Int.{ℤ, negsuc}
use llm_rl_cpu_poc.Common.Float.{Float}

pub data SampleStatus : Type 0 where
  pending completed truncated aborted gen_error sandbox_error sandbox_timeout sandbox_oom :
      SampleStatus

-- The member's `.value`.
unfoldable pub value : SampleStatus → String
value pending = "pending"
value completed = "completed"
value truncated = "truncated"
value aborted = "aborted"
value gen_error = "gen_error"
value sandbox_error = "sandbox_error"
value sandbox_timeout = "sandbox_timeout"
value sandbox_oom = "sandbox_oom"

pub data TaskLine : Type 0 where
  a_code l1_swe l2_term l3_search v1_chart v2_geom swe mock : TaskLine

unfoldable pub line_value : TaskLine → String
line_value a_code = "A"
line_value l1_swe = "L1"
line_value l2_term = "L2"
line_value l3_search = "L3"
line_value v1_chart = "V1"
line_value v2_geom = "V2"
line_value swe = "SWE"
line_value mock = "MOCK"

-- What the dictionaries `sandbox` and `metadata` hold: texts, numbers, timings, and the payloads of
-- other components, which travel through a sample unread (`P`).
pub data Value (F P : Type 0) : Type 0 where
  null : Value F P
  str : String → Value F P
  int : ℤ → Value F P
  num : F → Value F P
  payload : P → Value F P

-- The dataclass, over the type of its `status`: the enum, or the enum's value in a plain dict.
pub record SampleOf (F P S : Type 0) : Type 0 where
  pub prompt : String
  pub task_id : String
  pub task_line : String
  pub group_id : ℤ
  pub response : String
  pub code : String
  pub image_path : Option String
  pub status : S
  pub reward : F
  pub advantage : F
  pub tests_passed : ℕ
  pub tests_total : ℕ
  pub num_tokens : ℕ
  pub rollout_logprob : F
  pub train_logprob : Option F
  pub weight_version : ℕ
  pub turns : ℕ
  pub sandbox : Dict String (Value F P)
  pub metadata : Dict String (Value F P)

abbrev pub Sample : Type 0 → Type 0 → Type 0
Sample F P = SampleOf F P SampleStatus

abbrev pub SampleDict : Type 0 → Type 0 → Type 0
SampleDict F P = SampleOf F P String

-- `Sample(prompt=…, task_id=…, task_line=…, image_path=…)`: every other field at its default.
unfoldable pub new_sample :
    (fl : Float) {P : Type 0} → String → String → String → Option String → Sample fl.F P
new_sample fl prompt task_id task_line image_path = record {
  prompt = prompt;
  task_id = task_id;
  task_line = task_line;
  group_id = negsuc 0;
  response = "";
  code = "";
  image_path = image_path;
  status = pending;
  reward = fl.zero;
  advantage = fl.zero;
  tests_passed = 0;
  tests_total = 0;
  num_tokens = 0;
  rollout_logprob = fl.zero;
  train_logprob = none;
  weight_version = 0;
  turns = 0;
  sandbox = [];
  metadata = [];
}

module _ {F P S : Type 0} where
  -- A copy of every field, with another value for `status`.
  abbrev pub with_status : {T : Type 0} → SampleOf F P S → T → SampleOf F P T
  with_status s t = record {
    prompt = s.prompt;
    task_id = s.task_id;
    task_line = s.task_line;
    group_id = s.group_id;
    response = s.response;
    code = s.code;
    image_path = s.image_path;
    status = t;
    reward = s.reward;
    advantage = s.advantage;
    tests_passed = s.tests_passed;
    tests_total = s.tests_total;
    num_tokens = s.num_tokens;
    rollout_logprob = s.rollout_logprob;
    train_logprob = s.train_logprob;
    weight_version = s.weight_version;
    turns = s.turns;
    sandbox = s.sandbox;
    metadata = s.metadata;
  }

-- `SampleStatus(v)` compares `v` with the members' values in turn; no match is a ValueError.
unfoldable pub status_of : List SampleStatus → String → Option SampleStatus
unfolding value
status_of [] v = none
status_of (m ∷ ms) v = if value m == v then some m else status_of ms v

abbrev pub members : List SampleStatus
members =
    pending ∷ completed ∷ truncated ∷ aborted ∷ gen_error ∷ sandbox_error ∷ sandbox_timeout
    ∷ sandbox_oom ∷ []

module _ {F P : Type 0} where
  unfoldable pub to_dict : Sample F P → SampleDict F P
  unfolding value
  to_dict s = with_status s (value s.status)

  unfoldable pub from_dict : SampleDict F P → Option (Sample F P)
  unfolding status_of
  from_dict d = Option.map (with_status d) (status_of members d.status)
