-- ===== src/Types/Roundtrip.antt =====
-- types.py: `from_dict` and `to_dict` are inverse, and `from_dict` fails on an unknown status only.
use llm_rl_cpu_poc.Common.{◌≡◌, refl, String, some, arith}
use llm_rl_cpu_poc.Types.{
  SampleStatus, pending, completed, truncated, aborted, gen_error, sandbox_error, sandbox_timeout,
  sandbox_oom, value, status_of, members, Sample, SampleDict, to_dict, from_dict,
}
use text.Mathlib.TextEquality.{eq_iff}

status_of-value : (m : SampleStatus) → status_of members (value m) ≡ some m
unfolding status_of value
status_of-value pending = refl
status_of-value completed = refl
status_of-value truncated = refl
status_of-value aborted = refl
status_of-value gen_error = refl
status_of-value sandbox_error = refl
status_of-value sandbox_timeout = refl
status_of-value sandbox_oom = refl

value_of-status_of : (v : String) (m : SampleStatus) → status_of members v ≡ some m → value m ≡ v
unfolding status_of value
value_of-status_of v m h = ground (
  arith,
  eq_iff "pending" v,
  eq_iff "completed" v,
  eq_iff "truncated" v,
  eq_iff "aborted" v,
  eq_iff "gen_error" v,
  eq_iff "sandbox_error" v,
  eq_iff "sandbox_timeout" v,
  eq_iff "sandbox_oom" v,
)

module _ {F P : Type 0} where
  -- A sample survives the way through its plain dict unchanged.
  pub from_dict-to_dict : (s : Sample F P) → from_dict (to_dict s) ≡ some s
  unfolding to_dict from_dict
  from_dict-to_dict s = rw (status_of-value s.status)

  -- A dict that is read as a sample is the dict of that sample, with every field kept.
  pub to_dict-from_dict :
      (d : SampleDict F P) (s : Sample F P) → from_dict d ≡ some s → to_dict s ≡ d
  unfolding to_dict from_dict
  to_dict-from_dict d s h = ground (arith, value_of-status_of d.status s.status)
