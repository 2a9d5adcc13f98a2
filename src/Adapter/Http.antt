-- ===== src/Adapter/Http.antt =====
-- adapter.py: the POST handler.
use llm_rl_cpu_poc.Common.{ℕ, String, Option, none, some, ◌==◌, text_key, if◌then◌else◌}
use llm_rl_cpu_poc.Common.Float.{Float}
use llm_rl_cpu_poc.Common.Result.{Result, ok, err}
use llm_rl_cpu_poc.Router.{Surroundings}
use llm_rl_cpu_poc.Adapter.{Body, Payload, Completion, Adapter, Failure, missing, Answer, generate}

-- The status of a POST to `/generate`.
unfoldable pub post_status : {C : Type 0} → Result Failure (Answer C) → ℕ
post_status (ok _) = 200
post_status (err (missing key)) = 400
post_status (err _) = 502

module _ (fl : Float) {M T C : Type 0} where
  open fl use {F}

  -- A body that is no JSON is none; the answer is none where the handler fails before `generate`.
  unfoldable pub do_post :
      (String → String → ℕ)
      → Surroundings (Payload F M T) (Completion F C)
      → F
      → F
      → String
      → Option (Body F M T)
      → Adapter F
      → ℕ × Option (Result Failure (Answer C)) × Adapter F
  unfolding generate post_status
  do_post digest env ts lat path none a = (400, none, a)
  do_post digest env ts lat path (some body) a =
      if path == "/generate"
      then (let (out, a') = generate fl digest env ts lat body a in (post_status out, some out, a'))
      else (404, none, a)
