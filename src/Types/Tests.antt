-- ===== src/Types/Tests.antt =====
-- types.py at a concrete sample.
use llm_rl_cpu_poc.Common.{ℕ, ◌≡◌, some, none}
use llm_rl_cpu_poc.Common.Samples.{scaled}
use llm_rl_cpu_poc.Types.{Sample, new_sample, sandbox_oom, to_dict, from_dict}
use llm_rl_cpu_poc.Types.Roundtrip.{from_dict-to_dict}

abbrev sample : Sample ℕ ℕ
unfolding new_sample
sample = record (new_sample scaled "p" "t1" "A" none) { status = sandbox_oom }

from_dict-to_dict_example : from_dict (to_dict sample) ≡ some sample
from_dict-to_dict_example = from_dict-to_dict sample
