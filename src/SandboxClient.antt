-- ===== src/SandboxClient.antt =====
-- rl_sim/sandbox_client.py, and the two calls of rl_sim/netutil.py that it makes: the client of
-- sandboxd. Each call is one POST that the daemon serves; urllib is the parameter `Opener`.
pub mod Calls
mod Tests
use llm_rl_cpu_poc.Common.{
  ℕ, zero, suc, ◌+◌, String, Bool, true, false, Option, none, some, if◌then◌else◌,
}
use llm_rl_cpu_poc.Common.Result.{Result, ok, err}
use llm_rl_cpu_poc.Sandbox.{Tier, Profile, profile_of}
use llm_rl_cpu_poc.Sandboxd.{SandboxRegistry}
use llm_rl_cpu_poc.Sandboxd.Http.{
  Post, sandbox_create, sandbox_exec, sandbox_stop, Answer, stopped, Machine, status_code, do_post,
}

-- Which statuses make `open` raise an HTTPError.
pub record Opener : Type 0 where
  pub raises : ℕ → Bool

-- How one exchange goes: to its end, or it breaks before or after the daemon has served it.
pub data Link : Type 0 where
  whole : Link
  never_sent reply_lost : String → Link

-- SandboxdError with its status, a missing key of the reply, or the OSError of a broken exchange.
pub data ClientError : Type 0 where
  sandboxd_error : ℕ → ClientError
  missing_key : String → ClientError
  broken : String → ClientError

-- `timeout_s or self.timeout_s`.
unfoldable pub post_timeout : Option ℕ → ℕ → ℕ
post_timeout none own = own
post_timeout (some zero) own = own
post_timeout (some (suc n)) own = suc n

-- The timeout that `exec` passes: `(timeout_s or 300) + 60`.
unfoldable pub exec_timeout : Option ℕ → ℕ
unfolding post_timeout
exec_timeout timeout_s = post_timeout timeout_s 300 + 60

-- The wall time that the daemon gives the command.
unfoldable pub wall_of : Option ℕ → Tier → ℕ
wall_of none tier = (profile_of tier).wall_s
wall_of (some t) tier = t

-- A reply as the client sees it.
unfoldable pub received : Opener → Answer → Result ClientError Answer
unfolding status_code
received o a = if o.raises (status_code a) then err (sandboxd_error (status_code a)) else ok a

module _ (o : Opener) {J P : Type 0} (k : Machine J) where
  unfoldable pub post_to :
      Link → Post P → SandboxRegistry → Result ClientError Answer × SandboxRegistry
  unfolding received do_post
  post_to whole p r = let (a, r') = do_post k (some p) r in (received o a, r')
  post_to (never_sent why) p r = (err (broken why), r)
  post_to (reply_lost why) p r = (err (broken why), (do_post k (some p) r).1)

module _ (o : Opener) {J : Type 0} (P : Type 0) (k : Machine J) where
  unfoldable pub create_sandbox :
      Link
      → String
      → Option String
      → Option ℕ
      → SandboxRegistry
      → Result ClientError Answer × SandboxRegistry
  unfolding post_to
  create_sandbox link profile sandbox_id ttl_s r =
      post_to o {P = P} k link (sandbox_create (some profile) sandbox_id ttl_s) r

  unfoldable pub exec_command :
      Link → String → String → SandboxRegistry → Result ClientError Answer × SandboxRegistry
  unfolding post_to
  exec_command link sandbox_id cmd r =
      post_to o {P = P} k link (sandbox_exec (some sandbox_id) (some cmd)) r

  -- `bool(reply["stopped"])`.
  abbrev pub stopped_of : Result ClientError Answer → Result ClientError Bool
  stopped_of (ok (stopped b)) = ok b
  stopped_of (ok _) = err (missing_key "stopped")
  stopped_of (err e) = err e

  unfoldable pub stop_sandbox :
      Link → String → SandboxRegistry → Result ClientError Bool × SandboxRegistry
  unfolding post_to
  stop_sandbox link sandbox_id r =
      let (reply, r') = post_to o {P = P} k link (sandbox_stop (some sandbox_id)) r in
      (stopped_of reply, r')

-- `healthy`: none is an exception of the GET, and the reply's `ok` may be missing.
unfoldable pub healthy : Option (Option Bool) → Bool
healthy none = false
healthy (some none) = false
healthy (some (some b)) = b
