-- ===== src/Bake/Steps.antt =====
-- tools/bake_swe_env.py: the steps on node2 behind the fetch, over what they find on its disk. The
-- processes and the archive are parameters.
use llm_rl_cpu_poc.Common.{
  ℕ, ◌≡◌, String, Bool, true, false, ◌||◌, Option, none, some, List, [], ◌∷◌, arith, if◌then◌else◌,
  ◌==◌, number_key,
}
use llm_rl_cpu_poc.Common.Result.{Result, ok, err}
use llm_rl_cpu_poc.Bake.{Instance, Page, Refusal, step_fetch}
use llm_rl_cpu_poc.Swebench.{Row, Failure, SweInstance, parse_instance}
use llm_rl_cpu_poc.Swebench.Patch.{PatchLine, resolve_test_nodes}

-- What stands on the disk: none is nothing, false something that was left unfinished.
pub record Disk : Type 0 where
  pub instances : Option (List Instance)
  pub mirror : Option Bool
  pub tarball : Option Bool

-- How a process or the archive ends that makes one of these; where it fails, whether it leaves one.
pub data Making : Type 0 where
  worked : Making
  broke : Bool → Making

pub data BakeError : Type 0 where
  fetch_failed clone_failed env_failed pip_failed pack_failed : BakeError
  no_instance_file bad_instance worktree_failed import_failed collect_failed : BakeError

-- The arguments of `main` that the steps read, other than paths.
pub record Options : Type 0 where
  pub repo : String
  pub limit : Option ℕ
  pub min_version : Option (List (Option ℕ))

-- What the steps meet in one run: the dataset with the fuel for its pages, the processes, and what
-- the texts of an instance are: the row behind it, the lines of a patch, an id with its file.
pub record Outside : Type 0 where
  pub sort : List Instance → List Instance
  pub get : ℕ → Page Instance
  pub fuel : ℕ
  pub clone : Making
  pub venv : Bool
  pub pip : Bool
  pub pack : Making
  pub worktree : String → Bool
  pub imports : Bool
  pub row_of : Instance → Row
  pub patch_of : String → List PatchLine
  pub is_full_id : String → Bool
  pub collect : String → ℕ

abbrev pub left_by : Making → Option Bool
left_by worked = some true
left_by (broke true) = some false
left_by (broke false) = none

-- The subset becomes the file of instances.
abbrev pub written :
    Option (Result Refusal (List Instance)) → Disk → Result BakeError (Unit {0}) × Disk
written none s = (err fetch_failed, s)
written (some (err _)) s = (err fetch_failed, s)
written (some (ok rows)) s = (ok tt, record s { instances = some rows })

abbrev pub fetch_to : Options → Outside → Disk → Result BakeError (Unit {0}) × Disk
fetch_to a w s = written (step_fetch w.sort w.get w.fuel a.repo a.limit a.min_version) s

unfoldable pub step_clone : Outside → Disk → Result BakeError (Unit {0}) × Disk
step_clone w s = elim s.mirror [
  | some _ ↦ (ok tt, s)
  | none ↦ (
    elim w.clone [ worked ↦ ok tt | broke _ ↦ err clone_failed ],
    record s { mirror = left_by w.clone },
  )
]

unfoldable pub step_venv : Outside → Disk → Result BakeError (Unit {0}) × Disk
step_venv w s = elim s.tarball [
  | some _ ↦ (ok tt, s)
  | none ↦
      if w.venv
      then (if w.pip
          then (
            elim w.pack [ worked ↦ ok tt | broke _ ↦ err pack_failed ],
            record s { tarball = left_by w.pack },
          )
          else (err pip_failed, s))
      else (err env_failed, s)
]

-- The return codes 0 and 5 of the first node's collection pass.
abbrev pub collected : Outside → List String → Result BakeError (Unit {0})
collected w [] = ok tt
collected w (node ∷ _) =
    if w.collect node == 0 || w.collect node == 5 then ok tt else err collect_failed

abbrev pub checked : Outside → Result Failure SweInstance → Result BakeError (Unit {0})
checked w (err _) = err bad_instance
checked w (ok inst) = collected w (
    resolve_test_nodes w.is_full_id (w.patch_of inst.test_patch) inst.fail_to_pass
      inst.pass_to_pass)

unfoldable pub step_verify : Outside → Disk → Result BakeError (Unit {0})
step_verify w s = elim s.instances [
  | none ↦ err no_instance_file
  | some [] ↦ err no_instance_file
  | some (inst ∷ _) ↦ elim (w.row_of inst).base_commit [
    | none ↦ err bad_instance
    | some commit ↦
        if w.worktree commit
        then (if w.imports then checked w (parse_instance (w.row_of inst)) else err import_failed)
        else err worktree_failed
  ]
]

-- A step behind another, unless that raised.
abbrev pub and_then :
    Result BakeError (Unit {0}) × Disk
    → (Disk → Result BakeError (Unit {0}) × Disk)
    → Result BakeError (Unit {0}) × Disk
and_then (ok _, s) f = f s
and_then (err e, s) f = (err e, s)

-- `main` for the step `all`.
unfoldable pub bake_all : Options → Outside → Disk → Result BakeError (Unit {0}) × Disk
unfolding step_clone step_venv step_verify
bake_all a w s =
    and_then (and_then (and_then (fetch_to a w s) (step_clone w)) (step_venv w))
      λ s'. (step_verify w s', s')

-- A run of all steps from an empty disk that ends without an exception leaves a whole mirror and a
-- whole archive.
pub bake_all_fresh :
    (a : Options) (w : Outside) (s : Disk)
    → s.mirror ≡ none
    → s.tarball ≡ none
    → (bake_all a w s).0 ≡ ok tt
    → ((bake_all a w s).1.mirror ≡ some true) × ((bake_all a w s).1.tarball ≡ some true)
unfolding bake_all
bake_all_fresh a w s m t h = ground arith

-- On a disk with a mirror and an archive, finished or not, a run of all steps keeps them as they
-- are, and its result is the same whatever the clone, the processes of the environment and the archive would do.
pub bake_all_again :
    (a : Options) (w : Outside) (s : Disk) (clone pack : Making) (venv pip : Bool) {b c : Bool}
    → s.mirror ≡ some b
    → s.tarball ≡ some c
    → ((bake_all a w s).1.mirror ≡ some b)
      × ((bake_all a w s).1.tarball ≡ some c)
      × (bake_all a w s
          ≡ bake_all a (record w { clone = clone; pack = pack; venv = venv; pip = pip }) s)
unfolding bake_all
bake_all_again a w s clone pack venv pip m t = ground arith
