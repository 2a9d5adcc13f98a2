-- ===== src/SandboxClient/Calls.antt =====
-- sandbox_client.py: what the client's calls promise against the daemon.
use llm_rl_cpu_poc.Common.{
  ℕ, zero, suc, ◌+◌, ◌≤◌, ◌≡◌, ◌⊎◌, refl, subst, String, true, false, Option, none, some, arith,
}
use llm_rl_cpu_poc.Common.Result.{Result, ok, err}
use llm_rl_cpu_poc.Sandbox.{Tier, profile_of}
use llm_rl_cpu_poc.Sandboxd.{SandboxEntry, SandboxRegistry, Failure, create, stop}
use llm_rl_cpu_poc.Sandboxd.Http.{
  Post, Answer, created, Machine, status_code, failure_status, answer_with, do_post,
}
use llm_rl_cpu_poc.Sandboxd.Lifecycle.{stop-create}
use llm_rl_cpu_poc.Sandboxd.Refusals.{Remains}
use llm_rl_cpu_poc.SandboxClient.{
  Opener, whole, ClientError, sandboxd_error, missing_key, broken, exec_timeout, wall_of, received,
  post_to, create_sandbox, stop_sandbox,
}

-- The client waits at least a minute longer than the daemon lets the command run, in every profile
-- and also where no timeout or a timeout of zero is given.
pub wall_of-le-exec_timeout :
    (timeout_s : Option ℕ) (tier : Tier) → wall_of timeout_s tier + 60 ≤ exec_timeout timeout_s
unfolding wall_of exec_timeout profile_of
wall_of-le-exec_timeout none tier = ground arith
wall_of-le-exec_timeout (some zero) tier = omega arith
wall_of-le-exec_timeout (some (suc n)) tier = omega arith

-- What urllib documents of its opener for the statuses of the daemon.
pub record IsUsual (o : Opener) : Type 0 where
  pub keeps : o.raises 200 ≡ false
  pub refuses : (code : ℕ) → 400 ≤ code → o.raises code ≡ true

-- What a call leaves: a reply with status 200; a SandboxdError with another status, and the registry as
-- it was but for one counted rejection at 429 or a process that stays assigned at 400; or the error of an exchange that broke, after which the
-- registry is as it was or as the request served in full has left it.
abbrev pub Leaves :
    {J P : Type 0}
    → Machine J
    → Post P
    → SandboxRegistry
    → Result ClientError Answer × SandboxRegistry
    → Type 0
Leaves k p r (ok a, r') = (status_code a ≡ 200) × (r' ≡ (do_post k (some p) r).1)
Leaves k p r (err (sandboxd_error code), r') = (400 ≤ code) × Remains code r r'
Leaves k p r (err (missing_key key), r') = ⊥
Leaves k p r (err (broken why), r') = (r' ≡ r) ⊎ (r' ≡ (do_post k (some p) r).1)

module _ (o : Opener) (u : IsUsual o) {J : Type 0} (P : Type 0) (k later : Machine J) where
  stop_sandbox-stop :
      (sid : String) (r x : SandboxRegistry)
      → (stop later.polls_none sid r).0 ≡ true
      → (stop later.polls_none sid r).1 ≡ x
      → stop_sandbox o P later whole sid r ≡ (ok true, x)
  unfolding stop_sandbox post_to received do_post status_code stop
  stop_sandbox-stop sid r x h e = ground (arith, u.keeps, h, e)

  -- A sandbox that the client has created is stopped by the client's next call: it answers true, and
  -- the registry is that of before with one more creation counted.
  pub stop_sandbox-create_sandbox :
      (profile : String) (sandbox_id : Option String) (ttl_s : Option ℕ) (r : SandboxRegistry)
      {r' : SandboxRegistry} {sid workdir : String}
      → create_sandbox o P k whole profile sandbox_id ttl_s r ≡ (ok (created sid workdir), r')
      → stop_sandbox o P later whole sid r'
        ≡ (ok true, record r { created_total = r.created_total + 1 })
  unfolding create_sandbox stop_sandbox post_to received do_post status_code
  stop_sandbox-create_sandbox profile sandbox_id ttl_s r {r'} {sid} {workdir} h =
      go (create k.fs profile sandbox_id ttl_s k.fresh k.now r) refl h
    where
      refuse : (e : Failure) → o.raises (failure_status e) ≡ true
      refuse e = u.refuses (failure_status e) (ground arith)

      go :
          (out : Result Failure SandboxEntry × SandboxRegistry)
          → create k.fs profile sandbox_id ttl_s k.fresh k.now r ≡ out
          → let (a, r₂) = answer_with (λ e. created e.sandbox_id e.workdir) out in
            ◌≡◌ {A = Result ClientError Answer × SandboxRegistry}
              (received o a, r₂)
              (ok (created sid workdir), r')
            → stop_sandbox o P later whole sid r'
              ≡ (ok true, record r { created_total = r.created_total + 1 })
      go (err e, r₂) made h = absurd (ground (arith, h, refuse e))
      go (ok e, r₂) made h =
          let (done, left) =
            stop-create k.fs later.polls_none profile sandbox_id ttl_s k.fresh k.now r r₂ e made in
          let same : e.sandbox_id ≡ sid = ground (arith, h, u.keeps) in
          let kept : r₂ ≡ r' = ground (arith, h, u.keeps) in
          subst
            (λ x.
              stop_sandbox o P later whole x r'
              ≡ (ok true, record r { created_total = r.created_total + 1 }))
            same
            (subst
              (λ x.
                stop_sandbox o P later whole e.sandbox_id x
                ≡ (ok true, record r { created_total = r.created_total + 1 }))
              kept
              (stop_sandbox-stop e.sandbox_id r₂ (record r { created_total = r.created_total + 1 })
                done left))
